-- ===== src/Permission/Synthesis/Search.antt =====
-- Where some overrides express the source result, the synthesis finds some.
use discord_stoat_ferry.Prelude.{
  ℕ, zero, suc, ◌^◌, ◌≤◌, ◌<◌, ◌≡◌, ◌∙◌, refl, ap, Bool, true, Option, none, some, List, length,
  get_or, set, replicate, arith, inl, inr, Option-cases,
}
use discord_stoat_ferry.Prelude.Result.{ok, Result-cases}
use discord_stoat_ferry.Bits.{bit, bit_or, low_mask, bit-low_mask, covered}
use discord_stoat_ferry.Permission.Synthesis.{is_wanted, synthesize_bit, Query, synthesize_from}
use discord_stoat_ferry.Permission.Synthesis.Meaning.{target_result, IsExact, Describes}
use discord_stoat_ferry.Permission.Synthesis.Reaching.{
  Reaches, Reaches-start, Reaches-zeros, Reaches-neutral, Describes-one,
}
use discord_stoat_ferry.Permission.Synthesis.Completeness.{
  Follows, Follows-of_same, override_accepted, fallback_complete, fallback_of_Reaches,
}

module _ {n : ℕ} {f : ℕ → Bool} (query : Query) (exact : IsExact n f (is_wanted query)) where
  -- The query never raises on a cube.
  query_answers :
      (zeros ones : ℕ)
      → Describes n zeros ones
      → (answer : Option Bool) × (query zeros ones ≡ ok answer)
  query_answers zeros ones d = elim (Result-cases (query zeros ones)) [
    | inl (x, q) ↦ let (passed, e) = exact.answers zeros ones true d in ground arith
    | inr found ↦ found
  ]

  -- A role that some expressing overrides set is set by the synthesis.
  neutral_of_unknown :
      (operations : List (Option Bool)) (index zeros : ℕ)
      → index < n
      → Follows exact operations
      → Reaches n operations (suc index) zeros
      → query zeros (2 ^ index) ≡ ok none
      → get_or operations index none ≡ none
  neutral_of_unknown operations index zeros h follows r q =
      elim (Option-cases (get_or operations index none)) [
        | inl neutral ↦ neutral
        | inr (v, explicit) ↦
            ground (arith, override_accepted exact operations index zeros v h follows explicit r)
      ]

  synthesize_from_complete :
      (index : ℕ) (operations built : List (Option Bool)) (zeros : ℕ)
      → index ≤ n
      → Follows exact operations
      → Reaches n operations index zeros
      → (final : List (Option Bool)) × (last : ℕ) × (synthesize_from index query built zeros
          ≡ ok (final, last))
        × Reaches n operations 0 last
  unfolding synthesize_from
  synthesize_from_complete zero operations built zeros h follows r = (built, zeros, refl, r)
  synthesize_from_complete (suc index) operations built zeros h follows r =
      let (answer, q) = query_answers zeros (2 ^ index) (Describes-one h r) in
      elim (Option-cases answer) [
        | inl unknown ↦
            let asked : query zeros (2 ^ index) ≡ ok none = q ∙ ap ok unknown in
            let (final, last, e, done) =
              synthesize_from_complete index operations built zeros (omega arith) follows
                (Reaches-neutral (neutral_of_unknown operations index zeros h follows r asked) r) in
            (final, last, rw (asked, synthesize_from) e, done)
        | inr (v, known) ↦
            let asked : query zeros (2 ^ index) ≡ ok (some v) = q ∙ ap ok known in
            let (final, last, e, done) =
              synthesize_from_complete index operations (set built index (some v))
                (bit_or zeros (2 ^ index)) (omega arith) follows (Reaches-zeros h r) in
            (final, last, rw (asked, synthesize_from) e, done)
      ]

  pub synthesize_bit_finds :
      (operations : List (Option Bool)) (grants : ℕ) (base : Bool)
      → length operations ≡ n
      → ((i : ℕ) → bit grants i ≡ true → i < n)
      → ((members : ℕ)
          → ((i : ℕ) → bit members i ≡ true → i < n)
          → target_result operations grants base members ≡ f members)
      → (found : List (Option Bool)) × (synthesize_bit n query grants base ≡ ok (some found))
  unfolding synthesize_bit
  synthesize_bit_finds operations grants base size gw same =
      let (final, last, e, r) =
        synthesize_from_complete n operations (replicate n none) 0 (omega arith)
          (Follows-of_same exact operations grants base size same) Reaches-start in
      (
        final,
        ground (
          arith,
          e,
          covered grants (low_mask n) (λ i p. ground (arith, bit-low_mask n i, gw i p)),
          fallback_complete exact grants last base r.zeros_within gw
              (fallback_of_Reaches exact operations grants base last size same r),
        ),
      )
