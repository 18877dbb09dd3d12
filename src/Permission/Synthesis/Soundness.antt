-- ===== src/Permission/Synthesis/Soundness.antt =====
-- Overrides that the check accepts give each membership the source result.
use discord_stoat_ferry.Prelude.{
  ℕ, zero, suc, ◌+◌, ◌^◌, ◌≤◌, ◌<◌, ◌≡◌, ◌∙◌, refl, sym, Bool, true, false, ◌||◌, Option, none,
  some, List, length, get_or, arith, ◌==◌, ◌⊎◌, inl, inr, Bool-cases, Option-cases,
}
use discord_stoat_ferry.Prelude.Result.{ok, Result-cases}
use discord_stoat_ferry.Bits.{
  bit, truthy, bit_and, bit_or, low_mask, bit-low_mask, truthy-bit_and-pow, of_hit,
}
use discord_stoat_ferry.Permission.Predicate.{
  BitPredicate, evaluate_source_bit, constant_result, Cube,
}
use discord_stoat_ferry.Permission.Constant.{constant_result_exact}
use discord_stoat_ferry.Permission.Synthesis.{
  Test, granted_agree, fallback_matches, overrides_agree, encoding_matches, is_wanted,
  synthesize_bit,
}
use discord_stoat_ferry.Permission.Synthesis.Agreement.{encoding_matches-synthesize_bit}
use discord_stoat_ferry.Permission.Synthesis.Meaning.{
  override, target_result, Among, IsSound, Cube-one, Cube-none, Among-more, Among-union, Among-all,
  override_unassigned,
}

module _ {n : ℕ} {applies f : ℕ → Bool} {agrees : Test} (sound : IsSound n applies f agrees) where
  granted_here :
      (left index grants zeros : ℕ)
      → granted_agree (suc left) index agrees grants zeros ≡ ok true
      → bit grants index ≡ true
      → bit zeros index ≡ false
      → agrees zeros (2 ^ index) true ≡ ok true
  unfolding granted_agree
  granted_here left index grants zeros e p q =
      ground (arith, truthy-bit_and-pow grants index, truthy-bit_and-pow zeros index)

  granted_later :
      (left index grants zeros : ℕ)
      → granted_agree (suc left) index agrees grants zeros ≡ ok true
      → granted_agree left (index + 1) agrees grants zeros ≡ ok true
  unfolding granted_agree
  granted_later left _ _ _ e = ground arith

  granted_right :
      (left index grants zeros : ℕ)
      → granted_agree left index agrees grants zeros ≡ ok true
      → (i : ℕ) → index ≤ i
      → i < index + left
      → bit grants i ≡ true
      → bit zeros i ≡ false
      → agrees zeros (2 ^ i) true ≡ ok true
  unfolding granted_agree
  granted_right zero _ _ _ e i l u p q = absurd (omega arith)
  granted_right (suc left) index grants zeros e i l u p q = elim (Bool-cases (index == i)) [
    | inl same ↦
        let at : index ≡ i = ground arith in
        rw (← at) (granted_here left index grants zeros e (rw at p) (rw at q))
    | inr other ↦
        granted_right left (index + 1) grants zeros (granted_later left index grants zeros e) i
          (ground arith) (ground arith) p q
  ]

  fallback_right :
      (grants zeros : ℕ) (base : Bool)
      → fallback_matches n agrees grants base zeros ≡ ok true
      → (members : ℕ) → Among n zeros members
      → applies members ≡ true
      → f members ≡ (base || truthy (bit_and grants members))
  unfolding fallback_matches
  fallback_right grants zeros true e members a d =
      sound.right zeros 0 true e members (Cube-none a) d
  fallback_right grants zeros false e members a d =
      elim (Bool-cases (truthy (bit_and grants members))) [
        | inl hits ↦
            let (i, p, q) = of_hit grants members hits in
            let clear : bit zeros i ≡ false = ground (arith, a.absent i) in
            let below = bit-low_mask n i in
            rw hits (
              sound.right zeros (2 ^ i) true
                (granted_right n 0 grants zeros (ground arith) i (omega arith)
                  (ground (arith, a.within i q, below)) p clear)
                members (Cube-one i a q) d)
        | inr misses ↦ rw misses (
            sound.right (bit_or zeros grants) 0 false (ground arith) members
              (Cube-none (Among-union grants a misses)) d)
      ]

  overrides_right :
      (index : ℕ) (operations : List (Option Bool)) (zeros last members : ℕ)
      → overrides_agree index operations agrees zeros ≡ ok (some last)
      → Among n zeros members
      → applies members ≡ true
      → ((v : Bool) × (override operations index members ≡ some v) × (f members ≡ v))
        ⊎ ((override operations index members ≡ none) × Among n last members)
  unfolding overrides_agree override
  overrides_right zero operations zeros last members e a d =
      inr (refl, let same : zeros ≡ last = ground arith in rw (← same) a)
  overrides_right (suc index) operations zeros last members e a d =
      elim (Option-cases (get_or operations index none)) [
        | inl neutral ↦
            rw (neutral, override)
              (overrides_right index operations zeros last members
                (rw (neutral, overrides_agree) at e) a d)
        | inr (v, explicit) ↦ elim (Bool-cases (bit members index)) [
          | inl assigned ↦ inl (
            v,
            ground arith,
            sound.right zeros (2 ^ index) v (ground arith) members (Cube-one index a assigned) d,
          )
          | inr unassigned ↦ rw (override_unassigned operations index members unassigned) (
              overrides_right index operations (bit_or zeros (2 ^ index)) last members
                (ground arith) (Among-more index a unassigned) d)
        ]
      ]

  -- If `_encoding_matches` accepts the overrides, grants and base by a sound test, a target server
  -- gives every membership of the roles to which the source result applies that result.
  pub target_result-encoding_matches :
      (operations : List (Option Bool)) (grants : ℕ) (base : Bool) (members : ℕ)
      → length operations ≡ n
      → encoding_matches operations agrees grants base ≡ ok true
      → ((i : ℕ) → bit members i ≡ true → i < n)
      → applies members ≡ true
      → target_result operations grants base members ≡ f members
  unfolding encoding_matches target_result
  target_result-encoding_matches operations grants base members size e below d =
      elim (Result-cases (overrides_agree (length operations) operations agrees 0)) [
        | inl (x, q) ↦ ground arith
        | inr (none, q) ↦ ground arith
        | inr (some last, q) ↦
            elim (overrides_right (length operations) operations 0 last members q (Among-all below)
              d) [
                | inl (v, chosen, right) ↦ ground arith
                | inr (neutral, a) ↦
                    let matched : fallback_matches (length operations) agrees grants base last
                        ≡ ok true =
                      rw (q, encoding_matches) at e in
                    rw neutral
                      (sym (fallback_right grants last base (rw size at matched) members a d))
              ]
      ]

-- `constant_result(view, all_roles, …) is wanted` is sound for the source result.
pub IsSound-constant_result :
    (n : ℕ) (r : BitPredicate)
    → IsSound n (λ _. true) (evaluate_source_bit r) (is_wanted (constant_result r (low_mask n)))
IsSound-constant_result n r = record {
  right = λ zeros ones wanted e members cube _. right zeros ones wanted e members cube;
}
  where
    right :
        (zeros ones : ℕ) (wanted : Bool)
        → is_wanted (constant_result r (low_mask n)) zeros ones wanted ≡ ok true
        → (members : ℕ) → Cube (low_mask n) zeros ones members
        → evaluate_source_bit r members ≡ wanted
    right zeros ones wanted e members cube =
        elim (Result-cases (constant_result r (low_mask n) zeros ones)) [
          | inl (x, q) ↦ ground arith
          | inr (none, q) ↦ ground arith
          | inr (some v, q) ↦
              constant_result_exact r (low_mask n) zeros ones (some v) q members cube ∙ ground arith
        ]

-- Overrides that `synthesize_bit` returns for a source predicate, asked by `constant_result` over
-- the first `n` roles, give every membership of those roles exactly the source result.
pub target_result-synthesize_bit :
    (n : ℕ) (r : BitPredicate) (grants : ℕ) (base : Bool) (operations : List (Option Bool))
    → synthesize_bit n (constant_result r (low_mask n)) grants base ≡ ok (some operations)
    → (members : ℕ) → ((i : ℕ) → bit members i ≡ true → i < n)
    → target_result operations grants base members ≡ evaluate_source_bit r members
target_result-synthesize_bit n r grants base operations e members below =
    let (size, accepted) =
      encoding_matches-synthesize_bit n (constant_result r (low_mask n)) grants base operations e in
    target_result-encoding_matches (IsSound-constant_result n r) operations grants base members size
      accepted below refl
