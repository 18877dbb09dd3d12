-- ===== src/Permission/Conjunction/Wellformed.antt =====
-- The terms of `_predicate_terms` describe cubes over the roles.
use discord_stoat_ferry.Prelude.{
  ℕ, zero, suc, ◌<◌, ◌≡◌, ◌∙◌, ap, Bool, true, false, List, [], ◌∷◌, ◌++◌, arith, if◌then◌else◌,
  ◌==◌, inl, inr, Bool-cases, All,
}
use discord_stoat_ferry.Bits.{
  bit, truthy, bit_or, bit_xor, without, bit-bit_or, bit-without, bit-zero, bit-low_mask,
}
use discord_stoat_ferry.Bits.Lowest.{lowest, lowest_place, bit-remove}
use discord_stoat_ferry.Permission.Predicate.{BitPredicate}
use discord_stoat_ferry.Permission.Synthesis.Meaning.{Describes}
use discord_stoat_ferry.Permission.Synthesis.Exact.{IsOver}
use discord_stoat_ferry.Permission.Conjunction.{role_terms, predicate_terms}
use discord_stoat_ferry.Permission.Conjunction.Terms.{role_terms-more, role_terms-done}

-- A term whose two masks lie below `n` and are disjoint.
abbrev pub IsTerm : ℕ → ℕ × ℕ → Type 0
IsTerm n (absent, present) = Describes n absent present

All-append : {A : Type 0} (P : A → Type 0) (xs ys : List A) → All P xs → All P ys → All P (xs ++ ys)
All-append P [] ys h k = k
All-append P (x ∷ xs) ys (p, h) k = (p, All-append P xs ys h k)

module _ (n : ℕ) where
  role_terms-IsTerm :
      (fuel absent candidates : ℕ)
      → ((i : ℕ) → bit absent i ≡ true → i < n)
      → ((i : ℕ) → bit candidates i ≡ true → (i < n) × (bit absent i ≡ false))
      → All (IsTerm n) (role_terms fuel absent candidates)
  unfolding role_terms
  role_terms-IsTerm zero absent candidates h k = tt
  role_terms-IsTerm (suc fuel) absent candidates h k = elim (Bool-cases (truthy candidates)) [
    | inl more ↦
        let (place, held, alone) = lowest_place candidates more in
        rw (role_terms-more fuel absent candidates more) (
          record {
            zeros_within = λ i p. ground (arith, bit-low_mask n i, h i);
            ones_within = λ i p.
                let at : place ≡ i = ground (arith, alone i) in
                rw (← at) (ground (arith, bit-low_mask n place, k place held));
            apart = λ i p. elim (Bool-cases (place == i)) [
              | inl same ↦
                  let at : place ≡ i = ground arith in cc (ap (bit absent) at, (k place held).1, p)
              | inr other ↦ alone i ∙ other
            ];
          },
          role_terms-IsTerm fuel absent (bit_xor candidates (lowest candidates)) h
              (λ i p. k i (ground (arith, bit-remove candidates place i alone held))),
        )
    | inr done ↦ rw (role_terms-done (suc fuel) absent candidates done) tt
  ]

  single-IsTerm : (absent : ℕ) → ((i : ℕ) → bit absent i ≡ true → i < n) → IsTerm n (absent, 0)
  single-IsTerm absent h = record {
    zeros_within = λ i p. ground (arith, bit-low_mask n i, h i);
    ones_within = λ i p. cc (bit-zero i);
    apart = λ i p. bit-zero i;
  }

  pub predicate_terms-IsTerm :
      (r : BitPredicate) (wanted : Bool) → IsOver n r → All (IsTerm n) (predicate_terms r wanted)
  unfolding predicate_terms
  predicate_terms-IsTerm r true over =
      All-append (IsTerm n) (role_terms r.p 0 r.p) _
        (role_terms-IsTerm r.p 0 r.p (λ i p. cc (bit-zero i))
          (λ i p. (over.p_below i p, bit-zero i)))
        (grant_terms r.c)
    where
      grant_terms :
          (c : Bool)
          → All
              (IsTerm n)
              (if c then (r.n, 0) ∷ [] else role_terms (without r.g r.n) r.n (without r.g r.n))
      grant_terms true = (single-IsTerm r.n over.n_below, tt)
      grant_terms false =
          role_terms-IsTerm (without r.g r.n) r.n (without r.g r.n) over.n_below (λ i p. (
            ground (arith, over.g_below i, bit-without r.g r.n i),
            ground (arith, bit-without r.g r.n i),
          ))
  predicate_terms-IsTerm r false over =
      All-append (IsTerm n) (role_terms (without r.n r.p) r.p (without r.n r.p)) _
        (role_terms-IsTerm (without r.n r.p) r.p (without r.n r.p) over.p_below (λ i p. (
          ground (arith, over.n_below i, bit-without r.n r.p i),
          ground (arith, bit-without r.n r.p i),
        )))
        (deny_terms r.c)
    where
      deny_terms : (c : Bool) → All (IsTerm n) (if c then [] else (bit_or r.p r.g, 0) ∷ [])
      deny_terms true = tt
      deny_terms false = (
        single-IsTerm (bit_or r.p r.g)
            (λ i p. ground (arith, bit-bit_or r.p r.g i, over.p_below i, over.g_below i)),
        tt,
      )
