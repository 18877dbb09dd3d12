-- ===== src/Permission/Compile/Tests.antt =====
-- Witnesses on a channel that three roles see.
use discord_stoat_ferry.Prelude.{
  ℕ, ◌≡◌, refl, Bool, Option, none, true, false, false, some, List, [], ◌∷◌, if◌then◌else◌, ◌==◌,
  All, length, map, Bool-cases, inl, inr,
}
use discord_stoat_ferry.Prelude.Result.{ok}
use discord_stoat_ferry.Bits.{without, low_mask}
use discord_stoat_ferry.Bits.Lowest.{lowest}
use discord_stoat_ferry.Permission.Predicate.{BitPredicate, evaluate_source_bit, constant_result}
use discord_stoat_ferry.Permission.Synthesis.Soundness.{target_result-synthesize_bit}
use discord_stoat_ferry.Permission.Compile.Expressible.{compile_target-expressible}
use discord_stoat_ferry.Permission.Synthesis.{
  synthesize_bit, synthesize_from, fallback_matches, granted_agree,
}
use discord_stoat_ferry.Permission.Conjunction.{
  conjunction_possible, visible_bit_query, any_term, predicate_terms, role_terms, any_denied,
}
use discord_stoat_ferry.Permission.Synthesis.Exact.{IsOver}
use discord_stoat_ferry.Permission.Tests.{below_three}
use discord_stoat_ferry.Permission.Translation.{contains, bitfield, targets_of, add_bits}
use discord_stoat_ferry.Permission.Compile.Keeps.{held_at}
use discord_stoat_ferry.Permission.Compile.{
  PermissionCell, Proposal, Predicates, compile_channel, compile_table, compile_targets,
  compile_target, try_bases, set_operations, start, query_of, grants_from,
}
use discord_stoat_ferry.Permission.Compile.Loops.{pairs_of, distinct}
use discord_stoat_ferry.Permission.Compile.Exact.{
  GivesAccess, compile_channel-GivesAccess, compile_channel-held,
}

-- Roles that see: the first or the second; roles that send: the second, without the third.
abbrev viewing : BitPredicate
viewing = record { p = 3; n = 0; g = 0; c = false }

abbrev sending : BitPredicate
sending = record { p = 2; n = 4; g = 0; c = false }

abbrev predicates : Predicates
predicates permission = if permission == 10 then viewing else sending

abbrev cell : ℕ → ℕ → PermissionCell
cell allow deny = record { allow = allow; deny = deny }

abbrev fixed : List PermissionCell
fixed = cell 1048576 0 ∷ cell 0 0 ∷ cell 0 0 ∷ []

abbrev table : List (ℕ × List ℕ)
table = (10, 20 ∷ []) ∷ (11, 22 ∷ []) ∷ []

abbrev old : Proposal
old = record { default = cell 1 0; roles = cell 1048577 0 ∷ cell 0 2 ∷ cell 0 4194304 ∷ [] }

abbrev final : Proposal
final = record {
  default = cell 1 5242880;
  roles = cell 1048577 4194304 ∷ cell 5242880 2 ∷ cell 0 0 ∷ [];
}

predicates-IsOver : (permission : ℕ) → IsOver (length fixed) (predicates permission)
predicates-IsOver permission = elim (Bool-cases (permission == 10)) [
  | inl view ↦ rw view (record {
    p_below = below_three 3 refl;
    n_below = below_three 0 refl;
    g_below = below_three 0 refl;
  })
  | inr other ↦ rw other (record {
    p_below = below_three 2 refl;
    n_below = below_three 4 refl;
    g_below = below_three 0 refl;
  })
]

compiled : compile_channel predicates fixed table old ≡ ok (some final)
unfolding compile_channel compile_table compile_targets compile_target try_bases set_operations
    start query_of grants_from synthesize_bit without synthesize_from visible_bit_query
    conjunction_possible constant_result any_term predicate_terms role_terms any_denied
    fallback_matches granted_agree evaluate_source_bit bitfield targets_of add_bits lowest
compiled = refl

compile_channel-GivesAccess_example :
    All (λ p. GivesAccess predicates fixed final p.0 p.1) (pairs_of table)
unfolding distinct contains targets_of
compile_channel-GivesAccess_example =
    compile_channel-GivesAccess predicates fixed table old final predicates-IsOver refl refl
      compiled

compile_channel-held_example :
    (held_at 0 final.default ≡ held_at 0 old.default)
    × (map (held_at 0) final.roles ≡ map (held_at 0) old.roles)
unfolding contains targets_of
compile_channel-held_example = compile_channel-held predicates fixed table old final 0 refl compiled

abbrev view_operations : List (Option Bool)
view_operations = some true ∷ some true ∷ none ∷ []

view_synthesized :
    synthesize_bit 3 (constant_result viewing (low_mask 3)) (grants_from 0 fixed 20) false
    ≡ ok (some view_operations)
unfolding synthesize_bit constant_result without synthesize_from fallback_matches granted_agree
    grants_from
view_synthesized = refl

compile_target-expressible_example :
    (next : Proposal) × (compile_target predicates fixed 10 20 old ≡ ok (some next))
compile_target-expressible_example =
    compile_target-expressible predicates fixed 20 old view_operations false (predicates-IsOver 10)
      refl
      (target_result-synthesize_bit 3 viewing (grants_from 0 fixed 20) false view_operations
        view_synthesized)
