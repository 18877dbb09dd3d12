-- ===== src/Permission/Source/Meaning.antt =====
-- `_form_source_bit` (core/permissions.py): what Discord makes of the roles of a member and the overwrites of a channel, and its conditions.
use discord_stoat_ferry.Prelude.{
  ℕ, ◌+◌, ◌^◌, ◌≡◌, sym, String, Bool, true, false, ◌&&◌, ◌||◌, Option, none, some, List, [], ◌∷◌,
  if◌then◌else◌, arith, Option-cases, inl, inr,
}
use discord_stoat_ferry.Prelude.Result.{ok}
use discord_stoat_ferry.Prelude.Dict
use discord_stoat_ferry.Prelude.Dict.{Dict}
use discord_stoat_ferry.Bits.{
  bit, truthy, bit_and, bit_or, without, bit-bit_or, bit-zero, truthy-bit_and-pow,
}
use discord_stoat_ferry.Bits.Hits.{hits-bit_or, hits-pow}
use discord_stoat_ferry.Permission.Predicate.{BitPredicate}
use discord_stoat_ferry.Permission.Source.{
  SourceRole, SourceOverwrite, allows_bit, denies_bit, or_if, or_default, add_role, form_masks,
  default_overwrite,
}

-- What each assigned role adds, over the roles from `index` on.
pub assigned_or : (SourceRole → ℕ) → List SourceRole → ℕ → ℕ → ℕ
assigned_or mask [] index members = 0
assigned_or mask (role ∷ roles) index members =
    let rest = assigned_or mask roles (index + 1) members in
    if bit members index then bit_or (mask role) rest else rest

abbrev pub permissions_of : SourceRole → ℕ
permissions_of role = elim role.permissions [ none ↦ 0 | some permissions ↦ permissions ]

abbrev pub allow_of : Dict SourceOverwrite → SourceRole → ℕ
allow_of overwrites role = (default_overwrite overwrites role.id).allow

abbrev pub deny_of : Dict SourceOverwrite → SourceRole → ℕ
deny_of overwrites role = (default_overwrite overwrites role.id).deny

-- Discord's calculation: the union of everyone's and the assigned roles' permissions, all of them
-- for an administrator; then the everyone overwrite, and last the assigned roles' denies and allows
-- taken together, an allow over a deny.
unfoldable pub discord_has : SourceRole → List SourceRole → Dict SourceOverwrite → ℕ → ℕ → Bool
discord_has everyone roles overwrites members position =
    let base = bit_or (permissions_of everyone) (assigned_or permissions_of roles 0 members) in
    let default = default_overwrite overwrites everyone.id in
    let channel = bit_or (without base default.deny) default.allow in
    bit base 3
    || bit
        (bit_or (without channel (assigned_or (deny_of overwrites) roles 0 members))
          (assigned_or (allow_of overwrites) roles 0 members))
        position

-- The same unions, one condition at a time.
pub any_assigned : (SourceRole → Bool) → List SourceRole → ℕ → ℕ → Bool
any_assigned holds [] index members = false
any_assigned holds (role ∷ roles) index members =
    (bit members index && holds role) || any_assigned holds roles (index + 1) members

pub bit-assigned_or :
    (mask : SourceRole → ℕ) (roles : List SourceRole) (index members i : ℕ)
    → bit (assigned_or mask roles index members) i
      ≡ any_assigned (λ role. bit (mask role) i) roles index members
unfolding assigned_or any_assigned
bit-assigned_or mask [] index members i = bit-zero i
bit-assigned_or mask (role ∷ roles) index members i = ground (
  arith,
  bit-assigned_or mask roles (index + 1) members i,
  bit-bit_or (mask role) (assigned_or mask roles (index + 1) members) i,
)

hits-or_if :
    (condition : Bool) (mask index members : ℕ)
    → truthy (bit_and (or_if condition mask (2 ^ index)) members)
      ≡ (truthy (bit_and mask members) || (bit members index && condition))
hits-or_if true mask index members =
    ground (arith, hits-bit_or mask (2 ^ index) members, hits-pow index members)
hits-or_if false mask index members = ground arith

allow_at :
    (o : Option SourceOverwrite) (id : String) (position : ℕ)
    → allows_bit o (2 ^ position) ≡ bit (or_default o id).allow position
allow_at none id position = sym (bit-zero position)
allow_at (some o) id position = truthy-bit_and-pow o.allow position

deny_at :
    (o : Option SourceOverwrite) (id : String) (position : ℕ)
    → denies_bit o (2 ^ position) ≡ bit (or_default o id).deny position
deny_at none id position = sym (bit-zero position)
deny_at (some o) id position = truthy-bit_and-pow o.deny position

module _ (overwrites : Dict SourceOverwrite) (position : ℕ) (survives : Bool) where
  -- What the masks say of the memberships, in Discord's terms.
  pub record Masks (roles : List SourceRole) (index : ℕ) (before after : BitPredicate) (members : ℕ)
      : Type 0 where
    pub p_hits : truthy (bit_and after.p members) ≡ (
        truthy (bit_and before.p members)
        || (any_assigned (λ role. bit (permissions_of role) 3) roles index members
            || any_assigned (λ role. bit (allow_of overwrites role) position) roles index members))
    pub n_hits : truthy (bit_and after.n members) ≡ (
        truthy (bit_and before.n members)
        || any_assigned (λ role. bit (deny_of overwrites role) position) roles index members)
    pub g_hits : truthy (bit_and after.g members) ≡ (
        truthy (bit_and before.g members)
        || (survives
            && any_assigned (λ role. bit (permissions_of role) position) roles index members))
    pub same_c : after.c ≡ before.c

  pub form_masks-Masks :
      (roles : List SourceRole) (index : ℕ) (before after : BitPredicate) (members : ℕ)
      → form_masks overwrites (2 ^ position) survives roles index before ≡ ok after
      → Masks roles index before after members
  unfolding form_masks any_assigned
  form_masks-Masks [] index before after members e = record {
    p_hits = ground arith;
    n_hits = ground arith;
    g_hits = ground arith;
    same_c = ground arith;
  }
  form_masks-Masks (role ∷ roles) index before after members e =
      elim (Option-cases role.permissions) [
        | inl unknown ↦ ground arith
        | inr (permissions, same) ↦
            let o = Dict.get overwrites role.id in
            let ih =
              form_masks-Masks roles (index + 1)
                (add_role o (2 ^ position) survives permissions index before) after members
                (ground arith) in
            let admin = truthy-bit_and-pow permissions 3 in
            record {
              p_hits = ground (
                arith,
                ih.p_hits,
                hits-or_if (truthy (bit_and permissions 8) || allows_bit o (2 ^ position)) before.p
                    index members,
                allow_at o role.id position,
                admin,
              );
              n_hits = ground (
                arith,
                ih.n_hits,
                hits-or_if (denies_bit o (2 ^ position)) before.n index members,
                deny_at o role.id position,
              );
              g_hits = ground (
                arith,
                ih.g_hits,
                hits-or_if (survives && truthy (bit_and permissions (2 ^ position))) before.g index
                    members,
                truthy-bit_and-pow permissions position,
              );
              same_c = ground (arith, ih.same_c);
            }
      ]
