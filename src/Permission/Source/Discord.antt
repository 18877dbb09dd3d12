-- ===== src/Permission/Source/Discord.antt =====
-- A source predicate evaluates to Discord's own permission calculation, for every membership.
use discord_stoat_ferry.Prelude.{
  ℕ, ◌^◌, ◌≡◌, ◌∙◌, sym, ap, Bool, true, false, not, ◌&&◌, ◌||◌, none, some, List, arith,
  Bool-cases, Option-cases, inl, inr,
}
use discord_stoat_ferry.Prelude.Result.{Result, ok, err}
use discord_stoat_ferry.Prelude.Dict.{Dict}
use discord_stoat_ferry.Bits.{
  bit, truthy, bit_and, bit_or, without, bit-bit_or, bit-without, truthy-bit_and-pow,
}
use discord_stoat_ferry.Bits.Hits.{hits-zero}
use discord_stoat_ferry.Permission.Predicate.{
  BitPredicate, PermissionError, assertion_error, evaluate_source_bit,
}
use discord_stoat_ferry.Permission.Source.{
  SourceRole, SourceOverwrite, form_masks, default_overwrite, constant_only, form_source_bit,
}
use discord_stoat_ferry.Permission.Source.Meaning.{
  assigned_or, permissions_of, allow_of, deny_of, discord_has, any_assigned, bit-assigned_or, Masks,
  form_masks-Masks,
}

-- What the formed predicate evaluates to, once its masks are read in Discord's terms.
evaluate-Masks :
    (overwrites : Dict SourceOverwrite) (position : ℕ) (survives c : Bool) (roles : List SourceRole)
    (after : BitPredicate) (members : ℕ)
    → Masks overwrites position survives roles 0 (constant_only c) after members
    → evaluate_source_bit after members ≡ (
        (any_assigned (λ role. bit (permissions_of role) 3) roles 0 members
          || any_assigned (λ role. bit (allow_of overwrites role) position) roles 0 members)
        || (not (any_assigned (λ role. bit (deny_of overwrites role) position) roles 0 members)
            && (c
                || (survives
                    && any_assigned (λ role. bit (permissions_of role) position) roles 0 members))))
unfolding evaluate_source_bit
evaluate-Masks overwrites position survives c roles after members m =
    ground (arith, m.p_hits, m.n_hits, m.g_hits, m.same_c, hits-zero members)

-- Discord's calculation, by the same conditions.
discord_has-conditions :
    (everyone : SourceRole) (roles : List SourceRole) (overwrites : Dict SourceOverwrite)
    (members position : ℕ)
    → discord_has everyone roles overwrites members position ≡ (
        (bit (permissions_of everyone) 3
          || any_assigned (λ role. bit (permissions_of role) 3) roles 0 members)
        || ((not (any_assigned (λ role. bit (deny_of overwrites role) position) roles 0 members)
              && ((not (bit (deny_of overwrites everyone) position)
                    && (bit (permissions_of everyone) position
                        || any_assigned
                            (λ role. bit (permissions_of role) position)
                            roles
                            0
                            members))
                  || bit (allow_of overwrites everyone) position))
            || any_assigned (λ role. bit (allow_of overwrites role) position) roles 0 members))
unfolding discord_has
discord_has-conditions everyone roles overwrites members position =
    let base = bit_or (permissions_of everyone) (assigned_or permissions_of roles 0 members) in
    let channel =
      bit_or (without base (deny_of overwrites everyone)) (allow_of overwrites everyone) in
    let denied = assigned_or (deny_of overwrites) roles 0 members in
    ground (
      arith,
      bit-bit_or (permissions_of everyone) (assigned_or permissions_of roles 0 members) 3,
      bit-bit_or (permissions_of everyone) (assigned_or permissions_of roles 0 members) position,
      bit-assigned_or permissions_of roles 0 members 3,
      bit-assigned_or permissions_of roles 0 members position,
      bit-assigned_or (deny_of overwrites) roles 0 members position,
      bit-assigned_or (allow_of overwrites) roles 0 members position,
      bit-bit_or (without channel denied) (assigned_or (allow_of overwrites) roles 0 members)
          position,
      bit-without channel denied position,
      bit-bit_or (without base (deny_of overwrites everyone)) (allow_of overwrites everyone)
          position,
      bit-without base (deny_of overwrites everyone) position,
    )

form_source_bit-administrator :
    (everyone : SourceRole) (roles : List SourceRole) (overwrites : Dict SourceOverwrite)
    (position permissions : ℕ)
    → everyone.permissions ≡ some permissions
    → truthy (bit_and permissions 8) ≡ true
    → form_source_bit everyone roles overwrites position ≡ ok (constant_only true)
unfolding form_source_bit
form_source_bit-administrator everyone roles overwrites position permissions e h = ground arith

-- `(everyone.permissions & ~default.deny | default.allow) & mask` and `guild_survives`
abbrev everyone_has : ℕ → SourceOverwrite → ℕ → Bool
everyone_has permissions default position =
    truthy (bit_and (bit_or (without permissions default.deny) default.allow) (2 ^ position))

abbrev guild_survives : SourceOverwrite → ℕ → Bool
guild_survives default position =
    not (truthy (bit_and (bit_or default.allow default.deny) (2 ^ position)))

form_source_bit-masks :
    (everyone : SourceRole) (roles : List SourceRole) (overwrites : Dict SourceOverwrite)
    (position permissions : ℕ)
    → everyone.permissions ≡ some permissions
    → truthy (bit_and permissions 8) ≡ false
    → form_source_bit everyone roles overwrites position
      ≡ form_masks overwrites
          (2 ^ position)
          (guild_survives (default_overwrite overwrites everyone.id) position)
          roles
          0
          (constant_only
            (everyone_has permissions (default_overwrite overwrites everyone.id) position))
unfolding form_source_bit
form_source_bit-masks everyone roles overwrites position permissions e h = ground arith

form_source_bit-unknown :
    (everyone : SourceRole) (roles : List SourceRole) (overwrites : Dict SourceOverwrite)
    (position : ℕ)
    → everyone.permissions ≡ none
    → form_source_bit everyone roles overwrites position ≡ err assertion_error
unfolding form_source_bit
form_source_bit-unknown everyone roles overwrites position e = rw e

evaluate-constant : (members : ℕ) → evaluate_source_bit (constant_only true) members ≡ true
unfolding evaluate_source_bit
evaluate-constant members = ground (arith, hits-zero members)

ok-injective : {A : Type 0} {a b : A} → ◌≡◌ {A = Result PermissionError A} (ok a) (ok b) → a ≡ b
ok-injective h = ground arith

-- The predicate that `_form_source_bit` forms for a permission evaluates, for every set of assigned
-- roles, to Discord's own calculation of that permission with the channel's overwrites.
pub evaluate-form_source_bit :
    (everyone : SourceRole) (roles : List SourceRole) (overwrites : Dict SourceOverwrite)
    (position : ℕ) (predicate : BitPredicate)
    → form_source_bit everyone roles overwrites position ≡ ok predicate
    → (members : ℕ)
    → evaluate_source_bit predicate members ≡ discord_has everyone roles overwrites members position
evaluate-form_source_bit everyone roles overwrites position predicate e members =
    elim (Option-cases everyone.permissions) [
      | inl unknown ↦ cc (form_source_bit-unknown everyone roles overwrites position unknown)
      | inr (permissions, same) ↦
          let default = default_overwrite overwrites everyone.id in
          let conditions = discord_has-conditions everyone roles overwrites members position in
          let own : permissions_of everyone ≡ permissions = rw same in
          elim (Bool-cases (truthy (bit_and permissions 8))) [
            | inl admin ↦
                let formed : constant_only true ≡ predicate = ok-injective (
                  sym (
                    form_source_bit-administrator everyone roles overwrites position permissions
                      same admin)
                  ∙ e) in
                rw (← formed) (
                  ground (
                    arith,
                    conditions,
                    own,
                    truthy-bit_and-pow permissions 3,
                    ap (λ m. bit m 3) own,
                    evaluate-constant members,
                  ))
            | inr other ↦
                let built =
                  form_masks-Masks overwrites position (guild_survives default position) roles 0
                    (constant_only (everyone_has permissions default position)) predicate members
                    (sym (
                        form_source_bit-masks everyone roles overwrites position permissions same
                          other)
                      ∙ e) in
                ground (
                  arith,
                  conditions,
                  evaluate-Masks overwrites position (guild_survives default position)
                      (everyone_has permissions default position) roles predicate members built,
                  truthy-bit_and-pow permissions 3,
                  ap (λ m. bit m 3) own,
                  ap (λ m. bit m position) own,
                  truthy-bit_and-pow (bit_or (without permissions default.deny) default.allow)
                      position,
                  bit-bit_or (without permissions default.deny) default.allow position,
                  bit-without permissions default.deny position,
                  truthy-bit_and-pow (bit_or default.allow default.deny) position,
                  bit-bit_or default.allow default.deny position,
                )
          ]
    ]
