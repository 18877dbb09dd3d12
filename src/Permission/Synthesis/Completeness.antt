-- ===== src/Permission/Synthesis/Completeness.antt =====
-- The check accepts overrides that express the source result.
use discord_stoat_ferry.Prelude.{
  ℕ, zero, suc, ◌+◌, ◌^◌, ◌≤◌, ◌<◌, ◌≡◌, ◌∙◌, refl, sym, Bool, true, false, ◌||◌, Option, none,
  some, List, length, get_or, arith, ◌==◌, inl, inr, Bool-cases, Option-cases,
}
use discord_stoat_ferry.Prelude.Result.{ok}
use discord_stoat_ferry.Bits.{
  bit, truthy, bit_and, bit_or, low_mask, bit-bit_or, bit-pow, bit-zero, bit-low_mask,
  truthy-bit_and-pow, miss, hit,
}
use discord_stoat_ferry.Permission.Synthesis.{
  Test, granted_agree, fallback_matches, overrides_agree, encoding_matches,
}
use discord_stoat_ferry.Permission.Synthesis.Meaning.{
  override, or_fallback, target_result, Among, IsExact,
}
use discord_stoat_ferry.Permission.Synthesis.Reaching.{
  Reaches, Reaches-start, Reaches-zeros, Reaches-neutral, Describes-one, override_of_explicit,
}

target_of_override :
    {n : ℕ} (operations : List (Option Bool)) (grants : ℕ) (base : Bool) (members : ℕ)
    {o : Option Bool}
    → length operations ≡ n
    → override operations n members ≡ o
    → target_result operations grants base members
      ≡ or_fallback o (base || truthy (bit_and grants members))
unfolding target_result
target_of_override operations grants base members size e = rw (size, e)

module _ {n : ℕ} {f : ℕ → Bool} {agrees : Test} (exact : IsExact n f agrees) where
  granted_complete :
      (left index grants zeros : ℕ)
      → ((i : ℕ)
          → index ≤ i
          → i < index + left
          → bit grants i ≡ true
          → bit zeros i ≡ false
          → agrees zeros (2 ^ i) true ≡ ok true)
      → granted_agree left index agrees grants zeros ≡ ok true
  unfolding granted_agree
  granted_complete zero _ _ _ h = refl
  granted_complete (suc left) index grants zeros h = ground (
    arith,
    granted_complete left (index + 1) grants zeros
        (λ i l u p q. h i (omega arith) (omega arith) p q),
    h index,
    truthy-bit_and-pow grants index,
    truthy-bit_and-pow zeros index,
  )

  pub fallback_complete :
      (grants zeros : ℕ) (base : Bool)
      → ((i : ℕ) → bit zeros i ≡ true → i < n)
      → ((i : ℕ) → bit grants i ≡ true → i < n)
      → ((members : ℕ)
          → Among n zeros members
          → f members ≡ (base || truthy (bit_and grants members)))
      → fallback_matches n agrees grants base zeros ≡ ok true
  unfolding fallback_matches
  fallback_complete grants zeros true zw gw same =
      exact.complete zeros 0 true
        (record {
          zeros_within = λ i p. ground (arith, bit-low_mask n i, zw i p);
          ones_within = λ i p. cc (bit-zero i);
          apart = λ i p. bit-zero i;
        })
        (λ members cube. same members (record { within = cube.within; absent = cube.absent }))
  fallback_complete grants zeros false zw gw same = ground (arith, fallback_denies, fallback_grants)
    where
      fallback_denies : agrees (bit_or zeros grants) 0 false ≡ ok true
      fallback_denies =
          exact.complete (bit_or zeros grants) 0 false
            (record {
              zeros_within =
                  λ i p. ground (arith, bit-low_mask n i, zw i, gw i, bit-bit_or zeros grants i);
              ones_within = λ i p. cc (bit-zero i);
              apart = λ i p. bit-zero i;
            })
            (λ members cube.
              same members (record {
                within = cube.within;
                absent = λ i p. cube.absent i (ground (arith, bit-bit_or zeros grants i));
              })
              ∙ miss grants members
                  (λ i p. cube.absent i (ground (arith, bit-bit_or zeros grants i))))

      fallback_grants : granted_agree n 0 agrees grants zeros ≡ ok true
      fallback_grants = granted_complete n 0 grants zeros λ i l u p q.
          exact.complete zeros (2 ^ i) true
            (record {
              zeros_within = λ j r. ground (arith, bit-low_mask n j, zw j r);
              ones_within = λ j r. ground (arith, bit-low_mask n j, bit-pow i j);
              apart = λ j r. ground (arith, bit-pow i j, Bool-cases (i == j));
            })
            (λ members cube.
              same members (record { within = cube.within; absent = cube.absent })
              ∙ hit grants members i p (cube.present i (ground (arith, bit-pow i i))))

  -- `f` takes the value of each explicit override.
  abbrev pub Follows : List (Option Bool) → Type 0
  Follows operations =
      (members : ℕ)
      → ((i : ℕ) → bit members i ≡ true → bit (low_mask n) i ≡ true)
      → (v : Bool) → override operations n members ≡ some v
      → f members ≡ v

  pub override_accepted :
      (operations : List (Option Bool)) (index zeros : ℕ) (v : Bool)
      → index < n
      → Follows operations
      → get_or operations index none ≡ some v
      → Reaches n operations (suc index) zeros
      → agrees zeros (2 ^ index) v ≡ ok true
  override_accepted operations index zeros v h follows explicit r =
      exact.complete zeros (2 ^ index) v (Describes-one h r) (λ members cube.
        follows members cube.within v (override_of_explicit v explicit r members cube))

  pub overrides_complete :
      (index : ℕ) (operations : List (Option Bool)) (zeros : ℕ)
      → index ≤ n
      → Follows operations
      → Reaches n operations index zeros
      → (last : ℕ) × (overrides_agree index operations agrees zeros ≡ ok (some last))
        × Reaches n operations 0 last
  unfolding overrides_agree
  overrides_complete zero operations zeros h follows r = (zeros, refl, r)
  overrides_complete (suc index) operations zeros h follows r =
      elim (Option-cases (get_or operations index none)) [
        | inl neutral ↦
            let (last, e, done) =
              overrides_complete index operations zeros (omega arith) follows
                (Reaches-neutral neutral r) in
            (last, rw (neutral, overrides_agree) e, done)
        | inr (v, explicit) ↦
            let (last, e, done) =
              overrides_complete index operations (bit_or zeros (2 ^ index)) (omega arith) follows
                (Reaches-zeros h r) in
            (
              last,
              ground (arith, override_accepted operations index zeros v h follows explicit r, e),
              done,
            )
      ]

  -- No override is left to apply, so the target result is the fallback.
  pub fallback_of_Reaches :
      (operations : List (Option Bool)) (grants : ℕ) (base : Bool) (last : ℕ)
      → length operations ≡ n
      → ((members : ℕ)
          → ((i : ℕ) → bit members i ≡ true → i < n)
          → target_result operations grants base members ≡ f members)
      → Reaches n operations 0 last
      → (members : ℕ) → Among n last members
      → f members ≡ (base || truthy (bit_and grants members))
  unfolding target_result override
  fallback_of_Reaches operations grants base last size same r members a =
      sym (same members (λ i p. ground (arith, bit-low_mask n i, a.within i p)))
      ∙ target_of_override operations grants base members size (r.undecided members a)

  pub Follows-of_same :
      (operations : List (Option Bool)) (grants : ℕ) (base : Bool)
      → length operations ≡ n
      → ((members : ℕ)
          → ((i : ℕ) → bit members i ≡ true → i < n)
          → target_result operations grants base members ≡ f members)
      → Follows operations
  unfolding target_result
  Follows-of_same operations grants base size same members within v e =
      sym (same members (λ i p. ground (arith, bit-low_mask n i, within i p)))
      ∙ target_of_override operations grants base members size e

  -- The check accepts overrides, grants and base that give the value of `f` everywhere.
  pub encoding_matches_complete :
      (operations : List (Option Bool)) (grants : ℕ) (base : Bool)
      → length operations ≡ n
      → ((i : ℕ) → bit grants i ≡ true → i < n)
      → ((members : ℕ)
          → ((i : ℕ) → bit members i ≡ true → i < n)
          → target_result operations grants base members ≡ f members)
      → encoding_matches operations agrees grants base ≡ ok true
  unfolding encoding_matches
  encoding_matches_complete operations grants base size gw same =
      let (last, e, r) =
        overrides_complete n operations 0 (omega arith)
          (Follows-of_same operations grants base size same) Reaches-start in
      rw size (
        ground (
          arith,
          e,
          fallback_complete grants last base r.zeros_within gw
              (fallback_of_Reaches operations grants base last size same r),
        ))
