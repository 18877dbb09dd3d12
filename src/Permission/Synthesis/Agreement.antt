-- ===== src/Permission/Synthesis/Agreement.antt =====
-- What `synthesize_bit` returns passes `_encoding_matches` with the same queries.
use discord_stoat_ferry.Prelude.{
  ℕ, zero, suc, ◌^◌, ◌≤◌, ◌<◌, ◌≡◌, refl, Bool, true, Option, none, some, List, [], ◌∷◌, length,
  set, get_or, replicate, arith, if◌then◌else◌, ◌==◌, ◌⊎◌, inl, inr,
}
use discord_stoat_ferry.Prelude.Result.{Result, ok, err, Result-cases}
use discord_stoat_ferry.Bits.{bit_or}
use discord_stoat_ferry.Permission.Predicate.{PermissionError}
use discord_stoat_ferry.Permission.Synthesis.{
  Query, is_wanted, overrides_agree, fallback_matches, encoding_matches, synthesize_from,
  synthesize_bit,
}

get_or-set {ℓ} :
    {A : Type ℓ} (xs : List A) (i j : ℕ) (v d : A)
    → i < length xs
    → get_or (set xs i v) j d ≡ (if i == j then v else get_or xs j d)
get_or-set [] i j v d h = absurd (omega arith)
get_or-set (x ∷ xs) zero zero v d h = refl
get_or-set (x ∷ xs) zero (suc j) v d h = ground arith
get_or-set (x ∷ xs) (suc i) zero v d h = ground arith
get_or-set (x ∷ xs) (suc i) (suc j) v d h = ground (arith, get_or-set xs i j v d)

length-set {ℓ} : {A : Type ℓ} (xs : List A) (i : ℕ) (v : A) → length (set xs i v) ≡ length xs
length-set [] i v = refl
length-set (x ∷ xs) zero v = refl
length-set (x ∷ xs) (suc i) v = omega (arith, length-set xs i v)

-- The loop leaves the overrides from `index` on, and its result passes the check from there down.
record Kept (index : ℕ) (query : Query) (operations final : List (Option Bool)) (zeros last : ℕ)
    : Type 0 where
  passes : overrides_agree index final (is_wanted query) zeros ≡ ok (some last)
  above : (j : ℕ) → index ≤ j → get_or final j none ≡ get_or operations j none
  size : length final ≡ length operations

-- A query that has answered: it raised, it does not know, or it knows a value.
answer-cases :
    (r : Result PermissionError (Option Bool))
    → ((x : PermissionError) × (r ≡ err x)) ⊎ (r ≡ ok none) ⊎ ((v : Bool) × (r ≡ ok (some v)))
answer-cases (err x) = inl (x, refl)
answer-cases (ok none) = inr (inl refl)
answer-cases (ok (some v)) = inr (inr (v, refl))

module _ {index : ℕ} {query : Query} {operations final : List (Option Bool)} {zeros last : ℕ} where
  Kept-neutral :
      query zeros (2 ^ index) ≡ ok none
      → get_or operations index none ≡ none
      → Kept index query operations final zeros last
      → Kept (suc index) query operations final zeros last
  unfolding overrides_agree
  Kept-neutral q neutral k = record {
    passes = ground (arith, k.above index (omega arith), k.passes);
    above = λ j l. k.above j (omega arith);
    size = k.size;
  }

  Kept-override :
      (v : Bool)
      → query zeros (2 ^ index) ≡ ok (some v)
      → index < length operations
      → Kept index query (set operations index (some v)) final (bit_or zeros (2 ^ index)) last
      → Kept (suc index) query operations final zeros last
  unfolding overrides_agree
  Kept-override v q h k = record {
    passes = ground (
      arith,
      k.above index (omega arith),
      get_or-set operations index index (some v) none h,
      k.passes,
    );
    above = λ j l.
        ground (arith, k.above j (omega arith), get_or-set operations index j (some v) none h);
    size = ground (arith, k.size, length-set operations index (some v));
  }

synthesize_from-Kept :
    (index : ℕ) (query : Query) (operations final : List (Option Bool)) (zeros last : ℕ)
    → index ≤ length operations
    → ((j : ℕ) → j < index → get_or operations j none ≡ none)
    → synthesize_from index query operations zeros ≡ ok (final, last)
    → Kept index query operations final zeros last
unfolding synthesize_from overrides_agree
synthesize_from-Kept zero _ operations final _ last h neutral e = record {
  passes = ground arith;
  above = λ j k. ground arith;
  size = ground arith;
}
synthesize_from-Kept (suc index) query operations final zeros last h neutral e =
    elim (answer-cases (query zeros (2 ^ index))) [
      | inl (x, q) ↦ cc (rw (q, synthesize_from) at e)
      | inr (inl q) ↦ Kept-neutral q (neutral index (omega arith)) (
          synthesize_from-Kept index query operations final zeros last (omega arith)
            (λ j l. neutral j (omega arith)) (rw (q, synthesize_from) at e))
      | inr (inr (v, q)) ↦ Kept-override v q h (
          synthesize_from-Kept index query (set operations index (some v)) final
            (bit_or zeros (2 ^ index)) last
            (omega (arith, length-set {0} operations index (some v)))
            (λ j l.
              ground
                (arith, get_or-set operations index j (some v) none h, neutral j (omega arith)))
            (rw (q, synthesize_from) at e))
    ]

abbrev no_override : Option Bool
no_override = none

get_or-replicate : (n j : ℕ) → ◌≡◌ {A = Option Bool} (get_or (replicate n none) j none) none
get_or-replicate zero j = refl
get_or-replicate (suc n) zero = refl
get_or-replicate (suc n) (suc j) = get_or-replicate n j

length-replicate {ℓ} : {A : Type ℓ} (n : ℕ) (a : A) → length (replicate n a) ≡ n
length-replicate zero a = refl
length-replicate (suc n) a = omega (arith, length-replicate n a)

synthesize_bit-parts :
    (n : ℕ) (query : Query) (grants : ℕ) (base : Bool) (operations : List (Option Bool))
    → synthesize_bit n query grants base ≡ ok (some operations)
    → (last : ℕ) × (synthesize_from n query (replicate n none) 0 ≡ ok (operations, last))
      × (fallback_matches n (is_wanted query) grants base last ≡ ok true)
unfolding synthesize_bit
synthesize_bit-parts n query grants base operations e =
    elim (Result-cases (synthesize_from n query (replicate n none) 0)) [
      | inl (x, q) ↦ ground arith
      | inr ((final, last), q) ↦
          elim (Result-cases (fallback_matches n (is_wanted query) grants base last)) [
            | inl (x, r) ↦ ground arith
            | inr (matched, r) ↦ (last, ground arith, ground arith)
          ]
    ]

-- Overrides that `synthesize_bit` returns have one entry for each role, and `_encoding_matches`
-- accepts them when it is asked with the same query, grants and base.
pub encoding_matches-synthesize_bit :
    (n : ℕ) (query : Query) (grants : ℕ) (base : Bool) (operations : List (Option Bool))
    → synthesize_bit n query grants base ≡ ok (some operations)
    → (length operations ≡ n)
      × (encoding_matches operations (is_wanted query) grants base ≡ ok true)
unfolding encoding_matches
encoding_matches-synthesize_bit n query grants base operations e =
    let (last, built, matched) = synthesize_bit-parts n query grants base operations e in
    let k =
      synthesize_from-Kept n query (replicate n none) operations 0 last
        (omega (arith, length-replicate n no_override)) (λ j _. get_or-replicate n j) built in
    let size : length operations ≡ n = ground (arith, k.size, length-replicate n no_override) in
    (size, rw size (ground (arith, k.passes)))
