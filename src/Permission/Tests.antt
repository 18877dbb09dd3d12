-- ===== src/Permission/Tests.antt =====
-- Runs of the permission code, and the theorems at concrete inputs.
use discord_stoat_ferry.Prelude.{
  ℕ, ◌<◌, ◌^◌, ◌≡◌, ◌≢◌, ◌↔◌, refl, arith, Bool, true, false, Option, none, some, if◌then◌else◌,
  List, [], ◌∷◌, length,
}
use discord_stoat_ferry.Prelude.Result.{ok}
use discord_stoat_ferry.Prelude.Dict.{Dict, get}
use discord_stoat_ferry.Bits.{
  bit, truthy, bit_and, bit-zero, low_mask, bit_or, bit-low_mask, bit-bit_or, without,
}
use discord_stoat_ferry.Permission.Predicate.{BitPredicate, evaluate_source_bit, constant_result}
use discord_stoat_ferry.Permission.Constant.{Constancy, constant_result_exact}
use discord_stoat_ferry.Permission.Synthesis.{
  synthesize_bit, synthesize_from, fallback_matches, granted_agree, encoding_matches, is_wanted,
}
use discord_stoat_ferry.Permission.Synthesis.Meaning.{target_result, Describes}
use discord_stoat_ferry.Permission.Synthesis.Agreement.{encoding_matches-synthesize_bit}
use discord_stoat_ferry.Permission.Synthesis.Soundness.{target_result-synthesize_bit}
use discord_stoat_ferry.Permission.Synthesis.Exact.{
  IsOver, synthesize_bit_complete, encoding_matches_iff,
}
use discord_stoat_ferry.Permission.Conjunction.{
  conjunction_possible, visible_bit_query, any_term, predicate_terms, role_terms, any_denied,
}
use discord_stoat_ferry.Permission.Conjunction.Terms.{SomeFits, SomeFits-predicate_terms_iff}
use discord_stoat_ferry.Permission.Conjunction.Possible.{conjunction_possible-Decides}
use discord_stoat_ferry.Permission.Conjunction.Deciding.{Decides, Holds}
use discord_stoat_ferry.Permission.Conjunction.Visible.{
  grants_all, target_result-synthesize_bit_visible,
}
use discord_stoat_ferry.Permission.Source.{
  SourceRole, SourceOverwrite, form_source_bit, form_masks, source_role_changes_bit,
}
use discord_stoat_ferry.Permission.Source.Discord.{evaluate-form_source_bit}
use discord_stoat_ferry.Permission.Source.Meaning.{discord_has}
use discord_stoat_ferry.Permission.Source.Toggle.{source_role_changes_bit_iff}
use discord_stoat_ferry.Permission.Translation.{
  translate_permissions, contains, stoat_permission_bits, discord_to_stoat, all_stoat_permissions,
  administrator_only_bits,
}
use discord_stoat_ferry.Permission.Translation.Laws.{
  is_granted, bit-translate_permissions_overwrite, bit-translate_permissions_role,
  translate_permissions-subset, translate_permissions-administrator_only,
  translate_permissions-union,
}

-- The lowest of three roles grants the permission, the middle one denies it, the highest allows it.
abbrev three_roles : BitPredicate
three_roles = record { p = 4; n = 2; g = 1; c = false }

abbrev three_overrides : List (Option Bool)
three_overrides = some true ∷ some false ∷ some true ∷ []

pub below_three : (m : ℕ) → bit_or m 7 ≡ 7 → (i : ℕ) → bit m i ≡ true → i < 3
below_three m e i p =
    let same : bit (bit_or m 7) i ≡ bit 7 i = rw e refl in
    ground (arith, bit-bit_or m 7 i, bit-low_mask 3 i, same)

three_roles-IsOver : IsOver 3 three_roles
three_roles-IsOver = record {
  p_below = below_three 4 refl;
  n_below = below_three 2 refl;
  g_below = below_three 1 refl;
}

constant_result_exact_example : Constancy three_roles 7 4 2 (some false)
unfolding constant_result without
constant_result_exact_example = constant_result_exact three_roles 7 4 2 (some false) refl

synthesized :
    synthesize_bit 3 (constant_result three_roles (low_mask 3)) 1 false ≡ ok (some three_overrides)
unfolding synthesize_bit constant_result without synthesize_from fallback_matches granted_agree
synthesized = refl

encoding_matches-synthesize_bit_example :
    (length three_overrides ≡ 3)
    × (encoding_matches three_overrides
          (is_wanted (constant_result three_roles (low_mask 3)))
          1
          false
        ≡ ok true)
encoding_matches-synthesize_bit_example =
    encoding_matches-synthesize_bit 3 (constant_result three_roles (low_mask 3)) 1 false
      three_overrides synthesized

target_result-synthesize_bit_example :
    target_result three_overrides 1 false 3 ≡ evaluate_source_bit three_roles 3
target_result-synthesize_bit_example =
    target_result-synthesize_bit 3 three_roles 1 false three_overrides synthesized 3
      (below_three 3 refl)

synthesize_bit_complete_example :
    (found : List (Option Bool)) × (synthesize_bit 3
        (constant_result three_roles (low_mask 3))
        1
        false
      ≡ ok (some found))
synthesize_bit_complete_example =
    synthesize_bit_complete 3 three_roles 1 false three_overrides three_roles-IsOver
      (below_three 1 refl) refl
      (target_result-synthesize_bit 3 three_roles 1 false three_overrides synthesized)

encoding_matches_iff_example :
    (encoding_matches three_overrides (is_wanted (constant_result three_roles (low_mask 3))) 1 false
      ≡ ok true)
    ↔ ((members : ℕ)
        → ((i : ℕ) → bit members i ≡ true → i < 3)
        → target_result three_overrides 1 false members ≡ evaluate_source_bit three_roles members)
encoding_matches_iff_example =
    encoding_matches_iff 3 three_roles 1 false three_overrides three_roles-IsOver
      (below_three 1 refl) refl

-- Everyone sees the channel but the holders of the middle role.
abbrev seen : BitPredicate
seen = record { p = 0; n = 2; g = 0; c = true }

seen-IsOver : IsOver 3 seen
seen-IsOver = record {
  p_below = below_three 0 refl;
  n_below = below_three 2 refl;
  g_below = below_three 0 refl;
}

unbounded : Describes 3 0 0
unbounded = record {
  zeros_within = λ i p. cc (bit-zero i);
  ones_within = λ i p. cc (bit-zero i);
  apart = λ i p. bit-zero i;
}

conjunction_possible-Decides_example :
    Decides 3 0 0
      (Holds ((seen, true) ∷ (three_roles, false) ∷ []))
      (conjunction_possible ((seen, true) ∷ (three_roles, false) ∷ []) (low_mask 3) 0 0)
conjunction_possible-Decides_example =
    conjunction_possible-Decides 3 ((seen, true) ∷ (three_roles, false) ∷ []) 0 0
      (seen-IsOver, (three_roles-IsOver, tt)) unbounded

SomeFits-predicate_terms_iff_example :
    SomeFits (predicate_terms three_roles true) 5 ↔ (evaluate_source_bit three_roles 5 ≡ true)
SomeFits-predicate_terms_iff_example = SomeFits-predicate_terms_iff three_roles true 5

target_result-synthesize_bit_visible_example :
    target_result three_overrides 1 false 5 ≡ grants_all (three_roles ∷ []) 5
unfolding synthesize_bit without synthesize_from visible_bit_query conjunction_possible
    constant_result any_term predicate_terms role_terms any_denied fallback_matches granted_agree
    evaluate_source_bit
target_result-synthesize_bit_visible_example =
    target_result-synthesize_bit_visible 3 seen (three_roles ∷ []) 1 false three_overrides
      seen-IsOver (three_roles-IsOver, tt) refl 5 (below_three 5 refl) refl

-- A server whose default permits viewing, and a role that the channel denies it to.
abbrev everyone : SourceRole
everyone = record {
  id = "1";
  permissions = some 1024;
  position = some 0;
  managed = none;
  capture_fields = [];
}

abbrev muted : SourceRole
muted = record {
  id = "2";
  permissions = some 0;
  position = some 1;
  managed = none;
  capture_fields = [];
}

abbrev channel : Dict SourceOverwrite
channel = ("2", record { role_id = "2"; allow = 0; deny = 1024 }) ∷ []

evaluate-form_source_bit_example :
    evaluate_source_bit (record { p = 0; n = 1; g = 0; c = true }) 1
    ≡ discord_has everyone (muted ∷ []) channel 1 10
unfolding form_source_bit form_masks get without
evaluate-form_source_bit_example =
    evaluate-form_source_bit everyone (muted ∷ []) channel 10
      (record { p = 0; n = 1; g = 0; c = true }) refl 1

source_role_changes_bit_iff_example : (source_role_changes_bit three_roles (2 ^ 1) ≡ true) ↔ (
    (members : ℕ) × (evaluate_source_bit three_roles (bit_or members (2 ^ 1))
      ≢ evaluate_source_bit three_roles members))
source_role_changes_bit_iff_example = source_role_changes_bit_iff three_roles 1

bit-translate_permissions_overwrite_example :
    bit (translate_permissions 1034 true) 20 ≡ is_granted discord_to_stoat 1034 20
bit-translate_permissions_overwrite_example = bit-translate_permissions_overwrite 1034 20

bit-translate_permissions_role_example : bit (translate_permissions 1032 false) 12 ≡ (
    if bit 1032 3 then contains stoat_permission_bits 12 else is_granted discord_to_stoat 1032 12)
bit-translate_permissions_role_example = bit-translate_permissions_role 1032 12

translate_permissions-subset_example :
    truthy (without (translate_permissions 1034 true) all_stoat_permissions) ≡ false
translate_permissions-subset_example = translate_permissions-subset 1034 true

translate_permissions-administrator_only_example :
    truthy (bit_and (translate_permissions 1032 true) administrator_only_bits) ≡ false
translate_permissions-administrator_only_example = translate_permissions-administrator_only 1032

translate_permissions-union_example :
    bit (translate_permissions (bit_or 1024 2048) true) 22
    ≡ bit (bit_or (translate_permissions 1024 true) (translate_permissions 2048 true)) 22
translate_permissions-union_example = translate_permissions-union 1024 2048 22
