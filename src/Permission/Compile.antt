-- ===== src/Permission/Compile.antt =====
-- core/permissions.py: the loops of `compile_supported_bits` for one channel, over the table of
-- permissions, without managed roles; and the reading of cells by `_matches_source_access`.
pub mod Cells
pub mod Keeps
pub mod Start
pub mod Writes
pub mod Loops
pub mod Exact
pub mod Expressible
mod Tests
use discord_stoat_ferry.Prelude.{
  ℕ, suc, ◌+◌, ◌^◌, Bool, true, false, not, ◌&&◌, ◌||◌, Option, none, some, List, [], ◌∷◌, length,
  map, all, if◌then◌else◌, ◌==◌,
}
use discord_stoat_ferry.Prelude.Result.{Result, ok, err, ◌>>=◌}
use discord_stoat_ferry.Bits.{bit, truthy, bit_and, bit_or, without, low_mask}
use discord_stoat_ferry.Permission.Predicate.{BitPredicate, PermissionError, constant_result}
use discord_stoat_ferry.Permission.Translation.{bitfield, targets_of}
use discord_stoat_ferry.Permission.Synthesis.{Query, synthesize_bit}
use discord_stoat_ferry.Permission.Conjunction.{visible_bit_query}

pub record PermissionCell : Type 0 where
  pub allow : ℕ
  pub deny : ℕ

-- The default of a channel and its cells, in the order of the roles.
pub record Proposal : Type 0 where
  pub default : PermissionCell
  pub roles : List PermissionCell

-- The proven source predicates of a channel, by Discord bit.
abbrev pub Predicates : Type 0
Predicates = ℕ → BitPredicate

-- `grants`: the roles from `index` on whose fixed cell allows the target
unfoldable pub grants_from : ℕ → List PermissionCell → ℕ → ℕ
grants_from index [] target = 0
grants_from index (cell ∷ fixed) target =
    let rest = grants_from (index + 1) fixed target in
    if truthy (bit_and cell.allow (2 ^ target)) then bit_or (2 ^ index) rest else rest

abbrev pub needs_send : ℕ → Bool
needs_send permission = permission == 14 || permission == 15 || permission == 17

-- `required`
abbrev pub required_of : Predicates → ℕ → List BitPredicate
required_of predicates permission =
    predicates permission ∷ (if needs_send permission then predicates 11 ∷ [] else [])

abbrev pub preferred_base : List BitPredicate → Bool
preferred_base required = all (λ p. p.c) required

abbrev pub bases_of : Predicates → ℕ → List Bool
bases_of predicates permission =
    let preferred = preferred_base (required_of predicates permission) in
    if permission == 10 || (predicates 10).c then preferred ∷ [] else preferred ∷ not preferred ∷ []

unfoldable pub query_of : Predicates → ℕ → ℕ → ℕ → Bool → Query
query_of predicates permission all_roles grants base zeros ones =
    if permission == 10
    then constant_result (predicates 10) all_roles zeros ones
    else visible_bit_query (predicates 10) (required_of predicates permission) all_roles grants base
        zeros ones none

abbrev pub Attempt : Type 0
Attempt = Result PermissionError (Option (List (Option Bool) × Bool))

-- The operations that were found for the base, or the next attempt.
abbrev pub found_or : Option (List (Option Bool)) → Bool → Attempt → Attempt
found_or none base rest = rest
found_or (some operations) base rest = ok (some (operations, base))

-- The first base for which there are operations.
unfoldable pub try_bases : Predicates → ℕ → ℕ → ℕ → List Bool → Attempt
try_bases predicates permission role_count grants [] = ok none
try_bases predicates permission role_count grants (base ∷ bases) =
    let rest = try_bases predicates permission role_count grants bases in
    synthesize_bit role_count (query_of predicates permission (low_mask role_count) grants base)
      grants base
    >>= λ found. found_or found base rest

abbrev pub allow_if : Bool → ℕ → PermissionCell → PermissionCell
allow_if base mask cell = record {
  allow = if base then bit_or cell.allow mask else cell.allow;
  deny = if base then cell.deny else bit_or cell.deny mask;
}

abbrev pub set_operation : Option Bool → ℕ → PermissionCell → PermissionCell
set_operation none mask cell = cell
set_operation (some allowed) mask cell = allow_if allowed mask cell

-- `zip(ordered, operations)`
unfoldable pub set_operations : List (Option Bool) → ℕ → List PermissionCell → List PermissionCell
set_operations [] mask cells = cells
set_operations (operation ∷ operations) mask [] = []
set_operations (operation ∷ operations) mask (cell ∷ cells) =
    set_operation operation mask cell ∷ set_operations operations mask cells

abbrev pub propose : List (Option Bool) → Bool → ℕ → Proposal → Proposal
propose operations base target proposal = record {
  default = allow_if base (2 ^ target) proposal.default;
  roles = set_operations operations (2 ^ target) proposal.roles;
}

abbrev pub Compiled : Type 0
Compiled = Result PermissionError (Option Proposal)

abbrev pub proposed : Option (List (Option Bool) × Bool) → ℕ → Proposal → Option Proposal
proposed none target proposal = none
proposed (some (operations, base)) target proposal = some (propose operations base target proposal)

-- What follows, unless there was a refusal.
abbrev pub and_then : Option Proposal → (Proposal → Compiled) → Compiled
and_then none next = ok none
and_then (some proposal) next = next proposal

-- One target of a permission; none is a refusal.
unfoldable pub compile_target : Predicates → List PermissionCell → ℕ → ℕ → Proposal → Compiled
compile_target predicates fixed permission target proposal =
    try_bases predicates permission (length fixed) (grants_from 0 fixed target)
      (bases_of predicates permission)
    >>= λ found. ok (proposed found target proposal)

unfoldable pub compile_targets : Predicates → List PermissionCell → ℕ → List ℕ → Proposal → Compiled
compile_targets predicates fixed permission [] proposal = ok (some proposal)
compile_targets predicates fixed permission (target ∷ targets) proposal =
    compile_target predicates fixed permission target proposal >>= λ done.
    and_then done (compile_targets predicates fixed permission targets)

unfoldable pub compile_table :
    Predicates → List PermissionCell → List (ℕ × List ℕ) → Proposal → Compiled
compile_table predicates fixed [] proposal = ok (some proposal)
compile_table predicates fixed ((permission, targets) ∷ table) proposal =
    compile_targets predicates fixed permission targets proposal >>= λ done.
    and_then done (compile_table predicates fixed table)

abbrev pub keep_unaffected : ℕ → PermissionCell → PermissionCell
keep_unaffected affected cell = record {
  allow = without cell.allow affected;
  deny = without cell.deny affected;
}

-- The old cells without the positions that the table affects.
unfoldable pub start : ℕ → Proposal → Proposal
start affected old = record {
  default = keep_unaffected affected old.default;
  roles = map (keep_unaffected affected) old.roles;
}

-- The proposal for a channel; `affected` is read off the table.
unfoldable pub compile_channel :
    Predicates → List PermissionCell → List (ℕ × List ℕ) → Proposal → Compiled
compile_channel predicates fixed table old =
    compile_table predicates fixed table (start (bitfield (targets_of table)) old)

-- `base` of `_matches_source_access`
unfoldable pub base_at : ℕ → Proposal → ℕ → Bool
base_at server_default proposal target = truthy (
    bit_and (without (bit_or server_default proposal.default.allow) proposal.default.deny)
      (2 ^ target))

-- `operations` of `_matches_source_access`
unfoldable pub operations_at : List PermissionCell → ℕ → List (Option Bool)
operations_at [] target = []
operations_at (cell ∷ cells) target =
    (if truthy (bit_and cell.deny (2 ^ target))
      then some false
      else if truthy (bit_and cell.allow (2 ^ target))
      then some true
      else none)
    ∷ operations_at cells target
