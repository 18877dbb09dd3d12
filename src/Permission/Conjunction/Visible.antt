-- ===== src/Permission/Conjunction/Visible.antt =====
-- `_visible_bit_query` as the query of `synthesize_bit`: the overrides are right for every member
-- who sees the channel.
use discord_stoat_ferry.Prelude.{
  ℕ, ◌<◌, ◌≡◌, ◌∙◌, ◌↔◌, refl, ap, Bool, true, false, ◌&&◌, ◌||◌, Option, none, some, List, [], ◌∷◌,
  map, arith, if◌then◌else◌, inl, inr, Bool-cases, All,
}
use discord_stoat_ferry.Prelude.Result.{Result, ok, err, Result-cases}
use discord_stoat_ferry.Bits.{bit, low_mask}
use discord_stoat_ferry.Permission.Predicate.{
  BitPredicate, PermissionError, value_error, evaluate_source_bit, outside_universe,
  constant_result, Cube,
}
use discord_stoat_ferry.Permission.Constant.{Shared-of_inside}
use discord_stoat_ferry.Permission.Synthesis.{is_wanted, synthesize_bit}
use discord_stoat_ferry.Permission.Synthesis.Meaning.{Describes, IsSound, target_result}
use discord_stoat_ferry.Permission.Synthesis.Soundness.{target_result-encoding_matches}
use discord_stoat_ferry.Permission.Synthesis.Agreement.{encoding_matches-synthesize_bit}
use discord_stoat_ferry.Permission.Synthesis.Exact.{IsOver}
use discord_stoat_ferry.Permission.Conjunction.{
  Condition, conjunction_possible, any_denied, visible_bit_query,
}
use discord_stoat_ferry.Permission.Conjunction.Possible.{AreOver, conjunction_possible-Decides}
use discord_stoat_ferry.Permission.Conjunction.Deciding.{Holds, Decides}

-- The source grants every required permission to this membership.
abbrev pub grants_all : List BitPredicate → ℕ → Bool
grants_all [] members = true
grants_all (p ∷ required) members = evaluate_source_bit p members && grants_all required members

abbrev allowing : List BitPredicate → List Condition
allowing required = map (λ p. (p, true)) required

Holds-allowing_iff :
    (required : List BitPredicate) (members : ℕ)
    → Holds (allowing required) members ↔ (grants_all required members ≡ true)
Holds-allowing_iff [] members = (λ _. refl, λ _. tt)
Holds-allowing_iff (p ∷ required) members =
    let ih = Holds-allowing_iff required members in
    (λ h. ground (arith, h.0, ih.0 h.1), λ h. (ground arith, ih.1 (ground arith)))

AreOver-allowing :
    (n : ℕ) (required : List BitPredicate) → All (IsOver n) required → AreOver n (allowing required)
AreOver-allowing n [] over = tt
AreOver-allowing n (p ∷ required) (o, os) = (o, AreOver-allowing n required os)

conjunction_raises :
    (view : BitPredicate) (conditions : List Condition) (all_roles zeros ones : ℕ)
    → outside_universe view all_roles zeros ones ≡ true
    → conjunction_possible ((view, true) ∷ conditions) all_roles zeros ones ≡ err value_error
unfolding conjunction_possible constant_result
conjunction_raises _ _ _ _ _ h = rw h

inside_of_answer :
    (view : BitPredicate) (required : List BitPredicate) (all_roles grants : ℕ) (base : Bool)
    (zeros ones : ℕ) (hidden_result : Option Bool) {answer : Option Bool}
    → visible_bit_query view required all_roles grants base zeros ones hidden_result ≡ ok answer
    → outside_universe view all_roles zeros ones ≡ false
unfolding visible_bit_query
inside_of_answer view required all_roles grants base zeros ones hidden_result e =
    elim (Bool-cases (outside_universe view all_roles zeros ones)) [
      | inl outside ↦
          ground (arith, conjunction_raises view (allowing required) all_roles zeros ones outside)
      | inr inside ↦ inside
    ]

module _ (n : ℕ) (view : BitPredicate) (view_over : IsOver n view) where
  any_denied-step :
      (p : BitPredicate) (required : List BitPredicate) (zeros ones : ℕ) (found : Bool)
      → conjunction_possible ((view, true) ∷ (p, false) ∷ []) (low_mask n) zeros ones ≡ ok found
      → any_denied view (p ∷ required) (low_mask n) zeros ones
        ≡ (if found then ok true else any_denied view required (low_mask n) zeros ones)
  unfolding any_denied
  any_denied-step _ _ _ _ _ e = rw e

  -- A visible membership that the source denies a required permission.
  abbrev IsDenied : List BitPredicate → ℕ → Type 0
  IsDenied required members =
      (evaluate_source_bit view members ≡ true) × (grants_all required members ≡ false)

  any_denied-Decides :
      (required : List BitPredicate) (zeros ones : ℕ)
      → All (IsOver n) required
      → Describes n zeros ones
      → Decides n zeros ones (IsDenied required) (any_denied view required (low_mask n) zeros ones)
  any_denied-Decides [] _ _ over d = record {
    found = false;
    answered = unfold any_denied in refl;
    occurs = λ h. cc;
    never = λ h m c q. cc;
  }
  any_denied-Decides (p ∷ required) zeros ones (o, os) d =
      let here =
        conjunction_possible-Decides n ((view, true) ∷ (p, false) ∷ []) zeros ones
          (view_over, (o, tt)) d in
      let later = any_denied-Decides required zeros ones os d in
      let step = any_denied-step p required zeros ones here.found here.answered in
      elim (Bool-cases here.found) [
        | inl hit ↦ record {
          found = true;
          answered =
              step
              ∙ ap (λ b. if b then ok true else any_denied view required (low_mask n) zeros ones)
                  hit;
          occurs = λ _. let (m, c, q) = here.occurs hit in (m, c, (q.0, ground (arith, q.1)));
          never = λ h. cc;
        }
        | inr missed ↦ record {
          found = later.found;
          answered =
              step
              ∙ ap (λ b. if b then ok true else any_denied view required (low_mask n) zeros ones)
                  missed
              ∙ later.answered;
          occurs = λ h. let (m, c, q) = later.occurs h in (m, c, (q.0, ground (arith, q.1)));
          never = λ h m c q. elim (Bool-cases (evaluate_source_bit p m)) [
            | inl allowed ↦ later.never h m c (q.0, ground (arith, q.1))
            | inr denied ↦ here.never missed m c (q.0, (denied, tt))
          ];
        }
      ]

  module _ (required : List BitPredicate) (required_over : All (IsOver n) required) (grants : ℕ)
      (base : Bool) (hidden_result : Option Bool) where
    abbrev visible_query : ℕ → ℕ → Result PermissionError (Option Bool)
    visible_query zeros ones =
        visible_bit_query view required (low_mask n) grants base zeros ones hidden_result

    visible_query-step :
        (zeros ones : ℕ) (can_allow can_deny : Bool)
        → conjunction_possible ((view, true) ∷ allowing required) (low_mask n) zeros ones
          ≡ ok can_allow
        → any_denied view required (low_mask n) zeros ones ≡ ok can_deny
        → can_allow || can_deny ≡ true
        → visible_query zeros ones ≡ ok (if can_allow && can_deny then none else some can_allow)
    unfolding visible_bit_query
    visible_query-step _ _ _ _ p q h = rw (p, q) (ground arith)

    -- A known answer of the query holds for each visible membership of the cube.
    visible_query_right :
        (zeros ones : ℕ) (value : Bool)
        → Describes n zeros ones
        → visible_query zeros ones ≡ ok (some value)
        → (members : ℕ) → Cube (low_mask n) zeros ones members
        → evaluate_source_bit view members ≡ true
        → grants_all required members ≡ value
    visible_query_right zeros ones value d e members cube sees =
        let allow =
          conjunction_possible-Decides n ((view, true) ∷ allowing required) zeros ones
            (view_over, AreOver-allowing n required required_over) d in
        let deny = any_denied-Decides required zeros ones required_over d in
        let step =
          visible_query-step zeros ones allow.found deny.found allow.answered deny.answered in
        elim (Bool-cases (grants_all required members)) [
          | inl granted ↦ elim (Bool-cases allow.found) [
            | inl can ↦ ground arith
            | inr cannot ↦ absurd (
                allow.never cannot members cube
                  (sees, (Holds-allowing_iff required members).1 granted))
          ]
          | inr denied ↦ elim (Bool-cases deny.found) [
            | inl can ↦ ground arith
            | inr cannot ↦ absurd (deny.never cannot members cube (sees, denied))
          ]
        ]

    -- A query that does not raise was asked about a cube over the roles.
    Describes-of_answer :
        (zeros ones : ℕ) (answer : Option Bool)
        → visible_query zeros ones ≡ ok answer
        → Describes n zeros ones
    Describes-of_answer zeros ones answer e =
        let s =
          Shared-of_inside view (low_mask n) zeros ones
            (inside_of_answer view required (low_mask n) grants base zeros ones hidden_result e) in
        record { zeros_within = s.zeros_within; ones_within = s.ones_within; apart = s.apart }

    IsSound-visible_query :
        IsSound n (evaluate_source_bit view) (grants_all required) (is_wanted visible_query)
    IsSound-visible_query = record {
      right = λ zeros ones wanted e members cube sees. right zeros ones wanted e members cube sees;
    }
      where
        right :
            (zeros ones : ℕ) (wanted : Bool)
            → is_wanted visible_query zeros ones wanted ≡ ok true
            → (members : ℕ) → Cube (low_mask n) zeros ones members
            → evaluate_source_bit view members ≡ true
            → grants_all required members ≡ wanted
        right zeros ones wanted e members cube sees =
            elim (Result-cases (visible_query zeros ones)) [
              | inl (x, q) ↦ ground arith
              | inr (none, q) ↦ ground arith
              | inr (some v, q) ↦
                  visible_query_right zeros ones v (Describes-of_answer zeros ones (some v) q) q
                    members cube sees
                  ∙ ground arith
            ]

-- Overrides that `synthesize_bit` returns, asked by `_visible_bit_query` over the first `n` roles,
-- give every membership of those roles that sees the channel in the source the permission exactly
-- if the source gives it all the required permissions.
pub target_result-synthesize_bit_visible :
    (n : ℕ) (view : BitPredicate) (required : List BitPredicate) (grants : ℕ) (base : Bool)
    (operations : List (Option Bool))
    → IsOver n view
    → All (IsOver n) required
    → synthesize_bit n
        (λ zeros ones. visible_bit_query view required (low_mask n) grants base zeros ones none)
        grants
        base
      ≡ ok (some operations)
    → (members : ℕ) → ((i : ℕ) → bit members i ≡ true → i < n)
    → evaluate_source_bit view members ≡ true
    → target_result operations grants base members ≡ grants_all required members
target_result-synthesize_bit_visible n view required grants base operations vo ro e members below
      sees =
    let (size, accepted) =
      encoding_matches-synthesize_bit n
        (λ zeros ones. visible_bit_query view required (low_mask n) grants base zeros ones none)
        grants base operations e in
    target_result-encoding_matches (IsSound-visible_query n view vo required ro grants base none)
      operations grants base members size accepted below sees
