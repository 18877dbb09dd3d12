-- ===== src/Permission/Source.antt =====
-- core/permissions.py: the source facts, `_form_source_bit` and `_source_role_changes_bit`.
pub mod Meaning
pub mod Discord
pub mod Toggle
use discord_stoat_ferry.Prelude.{
  ℕ, ◌+◌, ◌^◌, String, Bool, true, false, not, ◌&&◌, ◌||◌, Option, none, some, List, [], ◌∷◌,
  if◌then◌else◌,
}
use discord_stoat_ferry.Prelude.Result.{Result, ok, err, ◌>>=◌}
use discord_stoat_ferry.Prelude.Dict
use discord_stoat_ferry.Prelude.Dict.{Dict}
use discord_stoat_ferry.Bits.{truthy, bit_and, bit_or, without}
use discord_stoat_ferry.Permission.Predicate.{BitPredicate, PermissionError, assertion_error}

pub record SourceRole : Type 0 where
  pub id : String
  pub permissions : Option ℕ
  pub position : Option ℕ
  pub managed : Option Bool
  pub capture_fields : List String

pub record SourceOverwrite : Type 0 where
  pub role_id : String
  pub allow : ℕ
  pub deny : ℕ

pub source_role_changes_bit : BitPredicate → ℕ → Bool
source_role_changes_bit predicate role =
    if truthy (bit_and predicate.p role)
    then not predicate.c || truthy (without predicate.n predicate.p)
    else if truthy (bit_and predicate.n role)
    then predicate.c || truthy (without predicate.g (bit_or predicate.p predicate.n))
    else truthy (bit_and predicate.g role) && not predicate.c

-- `assert permissions is not None`
abbrev pub known : Option ℕ → Result PermissionError ℕ
known none = err assertion_error
known (some permissions) = ok permissions

-- `overwrite is not None and overwrite.allow & mask`, and so for `deny`
abbrev pub allows_bit : Option SourceOverwrite → ℕ → Bool
allows_bit none mask = false
allows_bit (some overwrite) mask = truthy (bit_and overwrite.allow mask)

abbrev pub denies_bit : Option SourceOverwrite → ℕ → Bool
denies_bit none mask = false
denies_bit (some overwrite) mask = truthy (bit_and overwrite.deny mask)

-- `mask |= assigned` under a condition
abbrev pub or_if : Bool → ℕ → ℕ → ℕ
or_if condition mask assigned = if condition then bit_or mask assigned else mask

-- One round of the loop: what the role at `index` adds to the three masks.
abbrev pub add_role : Option SourceOverwrite → ℕ → Bool → ℕ → ℕ → BitPredicate → BitPredicate
add_role overwrite mask guild_survives permissions index result = record {
  p = or_if (truthy (bit_and permissions 8) || allows_bit overwrite mask) result.p (2 ^ index);
  n = or_if (denies_bit overwrite mask) result.n (2 ^ index);
  g = or_if (guild_survives && truthy (bit_and permissions mask)) result.g (2 ^ index);
  c = result.c;
}

-- The loop over `enumerate(roles)`; `result` holds the three masks and the constant.
unfoldable pub form_masks :
    Dict SourceOverwrite
    → ℕ
    → Bool
    → List SourceRole
    → ℕ
    → BitPredicate
    → Result PermissionError BitPredicate
form_masks overwrites mask guild_survives [] index result = ok result
form_masks overwrites mask guild_survives (role ∷ roles) index result = do
  permissions ← known role.permissions
  form_masks overwrites mask guild_survives roles (index + 1)
      (add_role (Dict.get overwrites role.id) mask guild_survives permissions index result)

-- `overwrites.get(everyone.id, SourceOverwrite(everyone.id, 0, 0))`
abbrev pub or_default : Option SourceOverwrite → String → SourceOverwrite
or_default none id = record { role_id = id; allow = 0; deny = 0 }
or_default (some overwrite) id = overwrite

abbrev pub default_overwrite : Dict SourceOverwrite → String → SourceOverwrite
default_overwrite overwrites id = or_default (Dict.get overwrites id) id

-- No role allows, denies or grants: the constant alone decides.
abbrev pub constant_only : Bool → BitPredicate
constant_only c = record { p = 0; n = 0; g = 0; c = c }

unfoldable pub form_source_bit :
    SourceRole → List SourceRole → Dict SourceOverwrite → ℕ → Result PermissionError BitPredicate
form_source_bit everyone roles overwrites bit = do
  permissions ← known everyone.permissions
  let mask = 2 ^ bit
  let default = default_overwrite overwrites everyone.id
  let c = truthy (bit_and (bit_or (without permissions default.deny) default.allow) mask)
  let guild_survives = not (truthy (bit_and (bit_or default.allow default.deny) mask))
  elim (truthy (bit_and permissions 8)) [
    | true ↦ ok (constant_only true)
    | false ↦ form_masks overwrites mask guild_survives roles 0 (constant_only c)
  ]
