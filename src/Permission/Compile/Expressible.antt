-- ===== src/Permission/Compile/Expressible.antt =====
-- core/permissions.py: `compile_supported_bits` refuses a channel's visibility only where it must.
use discord_stoat_ferry.Prelude.{
  ℕ, zero, suc, ◌+◌, ◌^◌, ◌<◌, ◌≡◌, refl, sym, ◌∙◌, Bool, true, false, ◌&&◌, Option, none, some,
  List, [], ◌∷◌, length, arith,
}
use discord_stoat_ferry.Prelude.Result.{ok}
use discord_stoat_ferry.Bits.{bit, truthy, bit_and, bit-zero, bit-bit_or, bit-pow, low_mask, miss}
use discord_stoat_ferry.Permission.Predicate.{BitPredicate, evaluate_source_bit, constant_result}
use discord_stoat_ferry.Permission.Synthesis.{synthesize_bit}
use discord_stoat_ferry.Permission.Synthesis.Meaning.{target_result, override, override_unassigned}
use discord_stoat_ferry.Permission.Synthesis.Exact.{IsOver, synthesize_bit_complete}
use discord_stoat_ferry.Permission.Compile.{
  PermissionCell, Proposal, Predicates, grants_from, try_bases, propose, compile_target,
}
use discord_stoat_ferry.Permission.Compile.Exact.{query_of-view}

-- The grants are those of the roles.
grants_from-below :
    (index target : ℕ) (fixed : List PermissionCell) (i : ℕ)
    → bit (grants_from index fixed target) i ≡ true
    → i < index + length fixed
unfolding grants_from
grants_from-below index target [] i h = absurd (cc (bit-zero i))
grants_from-below index target (cell ∷ fixed) i h = ground (
  arith,
  bit-bit_or (2 ^ index) (grants_from (index + 1) fixed target) i,
  bit-pow index i,
  grants_from-below (index + 1) target fixed i,
)

override-nobody : (operations : List (Option Bool)) (index : ℕ) → override operations index 0 ≡ none
unfolding override
override-nobody operations zero = refl
override-nobody operations (suc index) =
    override_unassigned operations index 0 (bit-zero index) ∙ override-nobody operations index

no_member : (m : ℕ) → truthy (bit_and m 0) ≡ false
no_member m = miss m 0 (λ i p. bit-zero i)

-- Without roles there is the base, and in the source the constant.
target_result-nobody :
    (operations : List (Option Bool)) (grants : ℕ) (base : Bool)
    → target_result operations grants base 0 ≡ base
unfolding target_result
target_result-nobody operations grants base =
    rw (override-nobody operations (length operations)) (ground (arith, no_member grants))

evaluate-nobody : (r : BitPredicate) → evaluate_source_bit r 0 ≡ r.c
unfolding evaluate_source_bit
evaluate-nobody r = ground (arith, no_member r.p, no_member r.n, no_member r.g)

try_bases-view :
    (predicates : Predicates) (role_count grants : ℕ) (found : List (Option Bool)) (base : Bool)
    → synthesize_bit role_count (constant_result (predicates 10) (low_mask role_count)) grants base
      ≡ ok (some found)
    → try_bases predicates 10 role_count grants (base ∷ []) ≡ ok (some (found, base))
unfolding try_bases
try_bases-view predicates role_count grants found base e =
    rw (query_of-view predicates 10 (low_mask role_count) grants base refl, e) refl

-- No refusal without need. If any overrides and any default of the channel give every membership of
-- the roles exactly the visibility of the source, over the grants of the fixed cells, then
-- `compile_supported_bits` finds some for the view permission and goes on.
pub compile_target-expressible :
    (predicates : Predicates) (fixed : List PermissionCell) (target : ℕ) (proposal : Proposal)
    (operations : List (Option Bool)) (base : Bool)
    → IsOver (length fixed) (predicates 10)
    → length operations ≡ length fixed
    → ((members : ℕ)
        → ((i : ℕ) → bit members i ≡ true → i < length fixed)
        → target_result operations (grants_from 0 fixed target) base members
          ≡ evaluate_source_bit (predicates 10) members)
    → (next : Proposal) × (compile_target predicates fixed 10 target proposal ≡ ok (some next))
unfolding compile_target
compile_target-expressible predicates fixed target proposal operations base over size same =
    let grants = grants_from 0 fixed target in
    let constant : base ≡ (predicates 10).c =
      sym (target_result-nobody operations grants base)
      ∙ same 0 (λ i p. absurd (cc (bit-zero i)))
      ∙ evaluate-nobody (predicates 10) in
    let (found, e) =
      synthesize_bit_complete (length fixed) (predicates 10) grants base operations over
        (λ i h. omega (arith, grants_from-below 0 target fixed i h)) size same in
    let preferred : ((predicates 10).c && true) ≡ base = ground arith in
    (
      propose found base target proposal,
      rw (preferred, try_bases-view predicates (length fixed) grants found base e) refl,
    )
