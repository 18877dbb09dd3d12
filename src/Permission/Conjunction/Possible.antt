-- ===== src/Permission/Conjunction/Possible.antt =====
-- `_conjunction_possible` decides whether a cube holds a membership with the wanted source results.
use discord_stoat_ferry.Prelude.{
  ℕ, ◌≡◌, ◌∙◌, refl, ap, Bool, true, false, none, some, List, [], ◌∷◌, arith, if◌then◌else◌, inl,
  inr, Bool-cases, Option-cases, All,
}
use discord_stoat_ferry.Prelude.Result.{Result, ok}
use discord_stoat_ferry.Bits.{bit_or, without, low_mask}
use discord_stoat_ferry.Permission.Predicate.{
  BitPredicate, PermissionError, evaluate_source_bit, constant_result, constant_in, Cube,
}
use discord_stoat_ferry.Permission.Constant.{constant_result_exact}
use discord_stoat_ferry.Permission.Synthesis.Meaning.{Describes, Cube-ones}
use discord_stoat_ferry.Permission.Synthesis.Exact.{IsOver, constant_result_answers}
use discord_stoat_ferry.Permission.Conjunction.{
  Condition, is_same, predicate_terms, any_term, conjunction_possible,
}
use discord_stoat_ferry.Permission.Conjunction.Terms.{SomeFits, SomeFits-predicate_terms_iff}
use discord_stoat_ferry.Permission.Conjunction.Wellformed.{predicate_terms-IsTerm}
use discord_stoat_ferry.Permission.Conjunction.Deciding.{Holds, Decides, any_term-Decides}

-- The conditions are over the first `n` roles.
abbrev pub AreOver : ℕ → List Condition → Type 0
AreOver n conditions = All (λ (c : Condition). IsOver n c.0) conditions

module _ (n : ℕ) where
  conjunction-known :
      (r : BitPredicate) (wanted : Bool) (conditions : List Condition) (zeros ones : ℕ)
      (value : Bool)
      → constant_result r (low_mask n) zeros ones ≡ ok (some value)
      → conjunction_possible ((r, wanted) ∷ conditions) (low_mask n) zeros ones ≡ (
          if is_same value wanted
          then conjunction_possible conditions (low_mask n) zeros ones
          else ok false)
  unfolding conjunction_possible
  conjunction-known _ _ _ _ _ _ e = rw e

  conjunction-unknown :
      (r : BitPredicate) (wanted : Bool) (conditions : List Condition) (zeros ones : ℕ)
      → constant_result r (low_mask n) zeros ones ≡ ok none
      → conjunction_possible ((r, wanted) ∷ conditions) (low_mask n) zeros ones
        ≡ any_term
            (conjunction_possible conditions (low_mask n))
            (predicate_terms r wanted)
            zeros
            ones
  unfolding conjunction_possible
  conjunction-unknown _ _ _ _ _ e = rw e

  Decides-known :
      (r : BitPredicate) (wanted value : Bool) (conditions : List Condition) (zeros ones : ℕ)
      → ((members : ℕ)
          → Cube (low_mask n) zeros ones members
          → evaluate_source_bit r members ≡ value)
      → Decides n zeros ones
          (Holds conditions)
          (conjunction_possible conditions (low_mask n) zeros ones)
      → Decides n zeros ones (Holds ((r, wanted) ∷ conditions)) (
          if is_same value wanted
          then conjunction_possible conditions (low_mask n) zeros ones
          else ok false)
  Decides-known _ wanted value _ _ _ constant k = elim (Bool-cases (is_same value wanted)) [
    | inl same ↦ rw same (record {
      found = k.found;
      answered = k.answered;
      occurs = λ h. let (m, c, q) = k.occurs h in (m, c, (ground (arith, constant m c), q));
      never = λ h m c q. k.never h m c q.1;
    })
    | inr other ↦ rw other (record {
      found = false;
      answered = refl;
      occurs = λ h. cc;
      never = λ h m c q. ground (arith, constant m c, q.0);
    })
  ]

  Decides-terms :
      (r : BitPredicate) (wanted : Bool) (conditions : List Condition) (zeros ones : ℕ)
      {answer : Result PermissionError Bool}
      → Decides n zeros ones
          (λ members. SomeFits (predicate_terms r wanted) members × Holds conditions members)
          answer
      → Decides n zeros ones (Holds ((r, wanted) ∷ conditions)) answer
  Decides-terms r wanted _ _ _ k = record {
    found = k.found;
    answered = k.answered;
    occurs = λ h.
        let (m, c, q) = k.occurs h in
        (m, c, ((SomeFits-predicate_terms_iff r wanted m).0 q.0, q.1));
    never = λ h m c q. k.never h m c ((SomeFits-predicate_terms_iff r wanted m).1 q.0, q.1);
  }

  -- For conditions and disjoint masks over the first `n` roles, `_conjunction_possible` returns a
  -- Boolean. It is True exactly if a membership that holds none of the zeros and all of the ones
  -- has the wanted source result for every condition.
  pub conjunction_possible-Decides :
      (conditions : List Condition) (zeros ones : ℕ)
      → AreOver n conditions
      → Describes n zeros ones
      → Decides n zeros ones
          (Holds conditions)
          (conjunction_possible conditions (low_mask n) zeros ones)
  conjunction_possible-Decides [] zeros ones over d = record {
    found = true;
    answered = unfold conjunction_possible in refl;
    occurs = λ _. (ones, Cube-ones zeros ones d, tt);
    never = λ h. cc;
  }
  conjunction_possible-Decides ((r, wanted) ∷ conditions) zeros ones (o, os) d =
      let answered = constant_result_answers o zeros ones d in
      elim (Option-cases (constant_in r (without (low_mask n) (bit_or zeros ones)) ones)) [
        | inl unknown ↦
            rw (conjunction-unknown r wanted conditions zeros ones (answered ∙ ap ok unknown)) (
              Decides-terms r wanted conditions zeros ones (
                any_term-Decides n (Holds conditions) (conjunction_possible conditions (low_mask n))
                  (λ z u d'. conjunction_possible-Decides conditions z u os d')
                  (predicate_terms r wanted) zeros ones (predicate_terms-IsTerm n r wanted o) d))
        | inr (value, known) ↦
            rw (conjunction-known r wanted conditions zeros ones value (answered ∙ ap ok known)) (
              Decides-known r wanted value conditions zeros ones
                (constant_result_exact r (low_mask n) zeros ones (some value)
                  (answered ∙ ap ok known))
                (conjunction_possible-Decides conditions zeros ones os d))
      ]
