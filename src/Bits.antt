-- ===== src/Bits.antt =====
-- Python's non-negative integers as sets of bit positions: `&`, `|`, `& ~`, `1 << k`, and the truth
-- of a mask. The laws are stated by membership, `bit m i`.
pub mod Lowest
pub mod Hits
use Prim.Native.Nat.{digits, min, max, differ, bit_and-bitwise, bit_or-bitwise, bit_xor-bitwise}
use native.Mathlib.Nat.{pow-suc, one-le-pow}
pub use Prim.Native.Nat.{bit_and, bit_or, bit_xor}
use discord_stoat_ferry.Prelude.{
  ℕ, zero, suc, ◌+◌, ◌-◌, ◌*◌, ◌/◌, ◌%◌, ◌^◌, ◌≤◌, ◌<◌, ◌≡◌, refl, ap, sym, ◌∙◌, Bool, true, false,
  not, ◌&&◌, ◌||◌, arith, ◌==◌, ltb, Bool-cases, inl, inr,
}

-- `m >> i & 1`
pub bit : ℕ → ℕ → Bool
bit m zero = m % 2 == 1
bit m (suc i) = bit (m / 2) i

-- `if mask:`
abbrev pub truthy : ℕ → Bool
truthy m = ltb 0 m

-- `a & ~b`, which is `a & (a ^ b)` on non-negative numbers
unfoldable pub without : ℕ → ℕ → ℕ
without a b = bit_and a (bit_xor a b)

pub bit-zero : (i : ℕ) → bit 0 i ≡ false
unfolding bit
bit-zero zero = refl
bit-zero (suc i) = bit-zero i

half_of_digits : (d r : ℕ) → r < 2 → (d * 2 + r) / 2 ≡ d
half_of_digits d r h = omega arith

last_of_digits : (d r : ℕ) → r < 2 → (d * 2 + r) % 2 ≡ r
last_of_digits d r h = omega arith

-- A native operation on binary digits acts on membership by the Boolean operation `op`.
module _ (z : ℕ → ℕ) (f : ℕ → ℕ → ℕ) (op : Bool → Bool → Bool)
    (at_end : (b i : ℕ) → bit (z b) i ≡ op false (bit b i))
    (digit : (x y : ℕ) → x < 2 → y < 2 → f x y < 2)
    (at_digit : (x y : ℕ) → x < 2 → y < 2 → (f x y == 1) ≡ op (x == 1) (y == 1)) where
  bit-digits : (n a b i : ℕ) → a ≤ n → bit (digits z f n a b) i ≡ op (bit a i) (bit b i)
  unfolding bit
  bit-digits zero zero b i h = rw (at_end b i, bit-zero i)
  bit-digits zero (suc a) b i h = absurd (omega arith)
  bit-digits (suc n) zero b i h = rw (at_end b i, bit-zero i)
  bit-digits (suc n) (suc a) b zero h =
      ap (λ m. m == 1)
        (last_of_digits _ (f (suc a % 2) (b % 2)) (digit _ _ (omega arith) (omega arith)))
      ∙ at_digit (suc a % 2) (b % 2) (omega arith) (omega arith)
  bit-digits (suc n) (suc a) b (suc i) h =
      ap (λ m. bit m i)
        (half_of_digits (digits z f n (suc a / 2) (b / 2)) (f (suc a % 2) (b % 2))
          (digit _ _ (omega arith) (omega arith)))
      ∙ bit-digits n (suc a / 2) (b / 2) i (omega arith)

two_values : (x : ℕ) → x < 2 → (x == 0) || (x == 1) ≡ true
two_values x h = ground arith

pub bit-bit_and : (a b i : ℕ) → bit (bit_and a b) i ≡ (bit a i && bit b i)
bit-bit_and a b i =
    ap (λ m. bit m i) (bit_and-bitwise a b)
    ∙ bit-digits (λ y. 0) min ◌&&◌ (λ y j. bit-zero j) (λ x y p q. omega arith)
        (λ x y p q. ground arith) a a b i (omega arith)

pub bit-bit_or : (a b i : ℕ) → bit (bit_or a b) i ≡ (bit a i || bit b i)
bit-bit_or a b i =
    ap (λ m. bit m i) (bit_or-bitwise a b)
    ∙ bit-digits (λ y. y) max ◌||◌ (λ y j. refl) (λ x y p q. omega arith) (λ x y p q. ground arith)
        a a b i (omega arith)

differ_digit : (x y : ℕ) → x < 2 → y < 2 → differ x y ≡ (x + y) % 2
differ_digit zero zero p q = refl
differ_digit zero (suc y) p q = omega arith
differ_digit (suc x) zero p q = omega arith
differ_digit (suc zero) (suc zero) p q = refl
differ_digit (suc zero) (suc (suc y)) p q = absurd (omega arith)
differ_digit (suc (suc x)) (suc y) p q = absurd (omega arith)

pub xor : Bool → Bool → Bool
xor false y = y
xor true y = not y

pub bit-bit_xor : (a b i : ℕ) → bit (bit_xor a b) i ≡ xor (bit a i) (bit b i)
unfolding xor
bit-bit_xor a b i =
    ap (λ m. bit m i) (bit_xor-bitwise a b)
    ∙ bit-digits (λ y. y) differ xor (λ y j. refl) (λ x y p q. omega (arith, differ_digit x y p q))
        (λ x y p q. ground (arith, differ_digit x y p q)) a a b i (omega arith)

pub bit-without : (a b i : ℕ) → bit (without a b) i ≡ (bit a i && not (bit b i))
unfolding without xor
bit-without a b i = ground (arith, bit-bit_and a (bit_xor a b) i, bit-bit_xor a b i)

pub truthy_of_bit : (m i : ℕ) → bit m i ≡ true → truthy m ≡ true
unfolding bit
truthy_of_bit zero i h = cc (bit-zero i)
truthy_of_bit (suc m) i h = ground arith

bit_below : (n m : ℕ) → m ≤ n → truthy m ≡ true → (i : ℕ) × (bit m i ≡ true)
unfolding bit
bit_below zero m p h = absurd (ground arith)
bit_below (suc n) m p h = elim (Bool-cases (m % 2 == 1)) [
  | inl odd ↦ (0, odd)
  | inr even ↦ let (i, q) = bit_below n (m / 2) (ground arith) (ground arith) in (suc i, q)
]

pub bit_of_truthy : (m : ℕ) → truthy m ≡ true → (i : ℕ) × (bit m i ≡ true)
bit_of_truthy m h = bit_below m m (omega arith) h

pub bit-pow : (k i : ℕ) → bit (2 ^ k) i ≡ (k == i)
unfolding bit
bit-pow zero zero = refl
bit-pow zero (suc i) = bit-zero i ∙ ground arith
bit-pow (suc k) zero = ground (arith, pow-suc 2 k)
bit-pow (suc k) (suc i) =
    ap (λ m. bit m i) (omega (arith, pow-suc 2 k)) ∙ bit-pow k i ∙ ground arith

-- `a & b` as a condition: some position is in both.
pub hit : (a b i : ℕ) → bit a i ≡ true → bit b i ≡ true → truthy (bit_and a b) ≡ true
hit a b i p q = truthy_of_bit (bit_and a b) i (ground (arith, bit-bit_and a b i))

pub of_hit : (a b : ℕ) → truthy (bit_and a b) ≡ true → (i : ℕ) × (bit a i ≡ true) × (bit b i ≡ true)
of_hit a b h =
    let (i, p) = bit_of_truthy (bit_and a b) h in
    (i, ground (arith, bit-bit_and a b i), ground (arith, bit-bit_and a b i))

pub of_miss : (a b i : ℕ) → truthy (bit_and a b) ≡ false → bit a i ≡ true → bit b i ≡ false
of_miss a b i h p = ground (arith, hit a b i p)

pub miss : (a b : ℕ) → ((i : ℕ) → bit a i ≡ true → bit b i ≡ false) → truthy (bit_and a b) ≡ false
miss a b h = elim (Bool-cases (truthy (bit_and a b))) [
  | inl e ↦ let (i, p, q) = of_hit a b e in cc (h i p)
  | inr e ↦ e
]

-- `a & ~b` as a condition: some position of `a` is not in `b`.
pub of_escape :
    (a b : ℕ) → truthy (without a b) ≡ true → (i : ℕ) × (bit a i ≡ true) × (bit b i ≡ false)
of_escape a b h =
    let (i, p) = bit_of_truthy (without a b) h in
    (i, ground (arith, bit-without a b i), ground (arith, bit-without a b i))

pub of_covered : (a b i : ℕ) → truthy (without a b) ≡ false → bit a i ≡ true → bit b i ≡ true
of_covered a b i h p = ground (arith, bit-without a b i, truthy_of_bit (without a b) i)

pub covered : (a b : ℕ) → ((i : ℕ) → bit a i ≡ true → bit b i ≡ true) → truthy (without a b) ≡ false
covered a b h = elim (Bool-cases (truthy (without a b))) [
  | inl e ↦ let (i, p, q) = of_escape a b e in cc (h i p)
  | inr e ↦ e
]

pub without-zero : (a : ℕ) → truthy a ≡ true → truthy (without a 0) ≡ true
without-zero a h =
    let (i, p) = bit_of_truthy a h in
    truthy_of_bit (without a 0) i (ground (arith, bit-without a 0 i, bit-zero i))

-- `(1 << n) - 1`
abbrev pub low_mask : ℕ → ℕ
low_mask n = 2 ^ n - 1

pub bit-low_mask : (n i : ℕ) → bit (low_mask n) i ≡ ltb i n
unfolding bit
bit-low_mask zero i = bit-zero i ∙ ground arith
bit-low_mask (suc n) zero = ground (arith, pow-suc 2 n, one-le-pow n 2)
bit-low_mask (suc n) (suc i) =
    ap (λ m. bit m i) (omega (arith, pow-suc 2 n, one-le-pow n 2)) ∙ bit-low_mask n i ∙ ground arith

-- `m & 1 << k` tests one position.
pub truthy-bit_and-pow : (m k : ℕ) → truthy (bit_and m (2 ^ k)) ≡ bit m k
truthy-bit_and-pow m k = elim (Bool-cases (bit m k)) [
  | inl e ↦ hit m (2 ^ k) k e (ground (arith, bit-pow k k)) ∙ sym e
  | inr e ↦
      miss m (2 ^ k) (λ i p. elim (Bool-cases (k == i)) [
        | inl same ↦ ground arith
        | inr other ↦ bit-pow k i ∙ other
      ])
      ∙ sym e
]
