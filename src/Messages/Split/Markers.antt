-- ===== src/Messages/Split/Markers.antt =====
-- migrator/messages.py: the bytes of the markers of `_split_message`.
use discord_stoat_ferry.Prelude.{
  ℕ, zero, suc, ◌+◌, ◌*◌, ◌/◌, ◌%◌, ◌≤◌, ◌<◌, ◌≡◌, refl, ap, ◌∙◌, inl, inr, [], ◌∷◌, ◌++◌, arith,
  length, Bool-cases, ltb,
}
use discord_stoat_ferry.Messages.Split.{
  Text, utf8_len, digits, decimal, first_marker, next_marker, marker_reserve,
}
use discord_stoat_ferry.Messages.Split.Prefix.{char_bytes_bounds}

pub utf8_len-append : (a b : Text) → utf8_len (a ++ b) ≡ utf8_len a + utf8_len b
unfolding utf8_len
utf8_len-append [] b = omega arith
utf8_len-append (c ∷ a) b = omega (arith, utf8_len-append a b)

digits_one : (rounds n : ℕ) → n < 10 → utf8_len (digits (suc rounds) n) ≡ 1
unfolding digits utf8_len
digits_one rounds n h = ground arith

digits_more :
    (rounds n : ℕ)
    → 10 ≤ n
    → utf8_len (digits (suc rounds) n) ≡ utf8_len (digits rounds (n / 10)) + 1
digits_more rounds n h =
    ap utf8_len (split rounds n h)
    ∙ utf8_len-append (digits rounds (n / 10)) ((b'0' + n % 10) ∷ [])
    ∙ ap (λ k. utf8_len (digits rounds (n / 10)) + k) (single (n % 10) (omega arith))
  where
    split : (r k : ℕ) → 10 ≤ k → digits (suc r) k ≡ digits r (k / 10) ++ (b'0' + k % 10) ∷ []
    split r k le = unfold digits in ground arith

    single : (d : ℕ) → d < 10 → utf8_len ((b'0' + d) ∷ []) ≡ 1
    single d lt = unfold utf8_len in ground arith

-- A greater number has no fewer digits.
digits_mono :
    (few more k n : ℕ)
    → few ≤ more
    → k ≤ n
    → k < few
    → utf8_len (digits few k) ≤ utf8_len (digits more n)
digits_mono zero more k n f le h = absurd (omega arith)
digits_mono (suc few) zero k n f le h = absurd (omega arith)
digits_mono (suc few) (suc more) k n f le h = elim (Bool-cases (ltb k 10)) [
  | inl small ↦ elim (Bool-cases (ltb n 10)) [
    | inl both ↦ omega (arith, digits_one few k (ground arith), digits_one more n (ground arith))
    | inr large ↦ omega (arith, digits_one few k (ground arith), digits_more more n (ground arith))
  ]
  | inr large ↦
      let k_large : 10 ≤ k = ground arith in
      omega (
        arith,
        digits_more few k k_large,
        digits_more more n (omega arith),
        digits_mono few more (k / 10) (n / 10) (omega arith) (omega arith) (omega arith),
      )
]

-- The bytes of the markers.
pub first_marker_bytes : (n : ℕ) → utf8_len (first_marker n) ≡ 15 + utf8_len (decimal n)
first_marker_bytes n = split n ∙ omega (arith, utf8_len-append (decimal n) (b']' ∷ []), tail)
  where
    split : (k : ℕ) → utf8_len (first_marker k) ≡ 14 + utf8_len (decimal k ++ b']' ∷ [])
    split k = unfold first_marker utf8_len in omega arith

    tail : utf8_len (b']' ∷ []) ≡ 1
    tail = unfold utf8_len in refl

pub next_marker_bytes :
    (k n : ℕ) → utf8_len (next_marker k n) ≡ 14 + utf8_len (decimal k) + utf8_len (decimal n)
next_marker_bytes k n = omega (
  arith,
  split k n,
  middle k n,
  utf8_len-append (decimal k) (b'/' ∷ decimal n ++ b']' ∷ b' ' ∷ []),
  utf8_len-append (decimal n) (b']' ∷ b' ' ∷ []),
  tail,
)
  where
    split :
        (i j : ℕ)
        → utf8_len (next_marker i j)
          ≡ 11 + utf8_len (decimal i ++ (b'/' ∷ decimal j ++ b']' ∷ b' ' ∷ []))
    split i j = unfold next_marker utf8_len in omega arith

    middle :
        (i j : ℕ)
        → utf8_len (b'/' ∷ decimal j ++ b']' ∷ b' ' ∷ [])
          ≡ 1 + utf8_len (decimal j ++ b']' ∷ b' ' ∷ [])
    middle i j = unfold utf8_len in omega arith

    tail : utf8_len (b']' ∷ b' ' ∷ []) ≡ 2
    tail = unfold utf8_len in refl

pub decimal_mono : (k n : ℕ) → k ≤ n → utf8_len (decimal k) ≤ utf8_len (decimal n)
decimal_mono k n le = digits_mono (k + 1) (n + 1) k n (omega arith) le (omega arith)

-- The reserve is the greater of the two markers.
pub reserve_bounds :
    (n : ℕ)
    → (utf8_len (first_marker n) ≤ marker_reserve n)
      × (utf8_len (next_marker n n) ≤ marker_reserve n)
unfolding marker_reserve
reserve_bounds n = ground arith

pub reserve_mono : (k n : ℕ) → k ≤ n → marker_reserve k ≤ marker_reserve n
unfolding marker_reserve
reserve_mono k n le = ground (
  arith,
  first_marker_bytes k,
  first_marker_bytes n,
  next_marker_bytes k k,
  next_marker_bytes n n,
  decimal_mono k n le,
)

pub utf8_len-le : (text : Text) → utf8_len text ≤ 4 * length text
unfolding utf8_len
utf8_len-le [] = omega arith
utf8_len-le (c ∷ text) = omega (arith, utf8_len-le text, (char_bytes_bounds c).1)
