-- ===== src/Bits/Lowest.antt =====
-- Isolating and removing the lowest position of a mask: `m & -m` and `m ^= role`.
use discord_stoat_ferry.Prelude.{
  ℕ, zero, suc, ◌-◌, ◌/◌, ◌%◌, ◌≤◌, ◌<◌, ◌≡◌, ap, ◌∙◌, true, false, not, ◌&&◌, arith, ◌==◌,
  Bool-cases, inl, inr,
}
use discord_stoat_ferry.Bits.{bit, truthy, without, bit-without, bit_xor, bit-bit_xor, xor}

-- `m & -m`, which is `m & ~(m - 1)` on positive numbers
unfoldable pub lowest : ℕ → ℕ
lowest m = without m (m - 1)

-- The position of the lowest one.
record Lowest (m : ℕ) : Type 0 where
  place : ℕ
  held : bit m place ≡ true
  alone : (i : ℕ) → (bit m i && not (bit (m - 1) i)) ≡ (place == i)

Lowest-odd : (m : ℕ) → m % 2 ≡ 1 → Lowest m
unfolding bit
Lowest-odd m h = record { place = 0; held = ground arith; alone = λ i. alone_at i }
  where
    same_half : (m - 1) / 2 ≡ m / 2
    same_half = omega arith

    alone_at : (i : ℕ) → (bit m i && not (bit (m - 1) i)) ≡ (0 == i)
    alone_at zero = ground arith
    alone_at (suc i) = rw same_half (ground (arith, Bool-cases (bit (m / 2) i)))

Lowest-even : (m : ℕ) → m % 2 ≡ 0 → 0 < m → Lowest (m / 2) → Lowest m
unfolding bit
Lowest-even m h p r = record { place = suc r.place; held = r.held; alone = λ i. alone_at i }
  where
    half_below : (m - 1) / 2 ≡ m / 2 - 1
    half_below = omega arith

    alone_at : (i : ℕ) → (bit m i && not (bit (m - 1) i)) ≡ (suc r.place == i)
    alone_at zero = ground arith
    alone_at (suc i) = rw half_below (ground (arith, r.alone i))

Lowest-below : (n m : ℕ) → m ≤ n → 0 < m → Lowest m
Lowest-below zero m h p = absurd (omega arith)
Lowest-below (suc n) m h p = elim (Bool-cases (m % 2 == 1)) [
  | inl odd ↦ Lowest-odd m (ground arith)
  | inr even ↦ Lowest-even m (ground arith) p (Lowest-below n (m / 2) (ground arith) (ground arith))
]

pub lowest_place :
    (m : ℕ) → truthy m ≡ true → (k : ℕ) × (bit m k ≡ true) × ((i : ℕ) → bit (lowest m) i ≡ (k == i))
unfolding lowest
lowest_place m h =
    let r = Lowest-below m m (omega arith) (ground arith) in
    (r.place, r.held, λ i. bit-without m (m - 1) i ∙ r.alone i)

le_of_subset_fuel : (n a b : ℕ) → a ≤ n → ((i : ℕ) → bit a i ≡ true → bit b i ≡ true) → a ≤ b
unfolding bit
le_of_subset_fuel n zero b h s = omega arith
le_of_subset_fuel zero (suc a) b h s = absurd (omega arith)
le_of_subset_fuel (suc n) (suc a) b h s =
    ground (arith, s 0, le_of_subset_fuel n (suc a / 2) (b / 2) (omega arith) (λ i p. s (suc i) p))

le_of_subset : (a b : ℕ) → ((i : ℕ) → bit a i ≡ true → bit b i ≡ true) → a ≤ b
le_of_subset a b s = le_of_subset_fuel a a b (omega arith) s

-- A mask without its lowest position.
pub bit-remove :
    (m k i : ℕ)
    → ((j : ℕ) → bit (lowest m) j ≡ (k == j))
    → bit m k ≡ true
    → bit (bit_xor m (lowest m)) i ≡ (bit m i && not (k == i))
unfolding xor
bit-remove m k i alone held = elim (Bool-cases (k == i)) [
  | inl same ↦
      let at : k ≡ i = ground arith in
      ground (arith, bit-bit_xor m (lowest m) i, alone i, ap (bit m) at)
  | inr other ↦ ground (arith, bit-bit_xor m (lowest m) i, alone i)
]

pub remove-lt : (m : ℕ) → truthy m ≡ true → bit_xor m (lowest m) < m
remove-lt m h =
    let (k, held, alone) = lowest_place m h in
    let less =
      le_of_subset (bit_xor m (lowest m)) m (λ i p. ground (arith, bit-remove m k i alone held)) in
    let gone : bit (bit_xor m (lowest m)) k ≡ false = ground (arith, bit-remove m k k alone held) in
    elim (Bool-cases (bit_xor m (lowest m) == m)) [
      | inl same ↦
          let stays : bit_xor m (lowest m) ≡ m = ground arith in
          cc (ap (λ x. bit x k) stays, gone, held)
      | inr other ↦ ground arith
    ]
