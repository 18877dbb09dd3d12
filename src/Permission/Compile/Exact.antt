-- ===== src/Permission/Compile/Exact.antt =====
-- core/permissions.py: what a channel that `compile_supported_bits` compiles gives its members.
use discord_stoat_ferry.Prelude.{
  ℕ, ◌<◌, ◌≡◌, refl, ap, subst, ◌∙◌, Bool, true, false, ◌||◌, Option, none, some, List, [], ◌∷◌,
  ◌++◌, length, map, arith, All, ◌==◌, Bool-cases, inl, inr,
}
use std.Path.{fun_ext}
use discord_stoat_ferry.Prelude.Result.{ok}
use discord_stoat_ferry.Bits.{bit, low_mask}
use discord_stoat_ferry.Permission.Predicate.{evaluate_source_bit, constant_result}
use discord_stoat_ferry.Permission.Synthesis.Meaning.{target_result}
use discord_stoat_ferry.Permission.Synthesis.Soundness.{target_result-synthesize_bit}
use discord_stoat_ferry.Permission.Synthesis.Exact.{IsOver}
use discord_stoat_ferry.Permission.Conjunction.{visible_bit_query}
use discord_stoat_ferry.Permission.Conjunction.Visible.{
  grants_all, target_result-synthesize_bit_visible,
}
use discord_stoat_ferry.Permission.Translation.{contains, bitfield, targets_of}
use discord_stoat_ferry.Permission.Compile.{
  PermissionCell, Proposal, Predicates, needs_send, required_of, grants_from, query_of, start,
  compile_channel, base_at, operations_at,
}
use discord_stoat_ferry.Permission.Compile.Cells.{IsClearAt}
use discord_stoat_ferry.Permission.Compile.Keeps.{held_at}
use discord_stoat_ferry.Permission.Compile.Start.{
  start-IsClearAt, start-length, keep_unaffected-held, keep_unaffected-held_roles,
}
use discord_stoat_ferry.Permission.Compile.Writes.{Found}
use discord_stoat_ferry.Permission.Compile.Loops.{
  paired, pairs_of, distinct, compile_table-Written, Written-IsRead, Written-Keeps,
}

-- What the cells of a channel, with the fixed cells and the default of the server, give every
-- membership that is concerned: visibility to all, the rest to those that see the channel.
pub GivesAccess : Predicates → List PermissionCell → Proposal → ℕ → ℕ → Type 0
GivesAccess predicates fixed proposal permission target =
    (server_default members : ℕ)
    → ((i : ℕ) → bit members i ≡ true → i < length fixed)
    → (permission == 10 || evaluate_source_bit (predicates 10) members) ≡ true
    → target_result (operations_at proposal.roles target) (grants_from 0 fixed target)
        (base_at server_default proposal target) members
      ≡ grants_all (required_of predicates permission) members

module _ (predicates : Predicates) where
  pub query_of-view :
      (permission all_roles grants : ℕ) (base : Bool)
      → (permission == 10) ≡ true
      → query_of predicates permission all_roles grants base
        ≡ constant_result (predicates 10) all_roles
  unfolding query_of
  query_of-view permission all_roles grants base view =
      fun_ext (λ zeros. fun_ext (λ ones. rw view refl))

  query_of-other :
      (permission all_roles grants : ℕ) (base : Bool)
      → (permission == 10) ≡ false
      → query_of predicates permission all_roles grants base ≡ (λ zeros ones.
        visible_bit_query
          (predicates 10)
          (required_of predicates permission)
          all_roles
          grants
          base
          zeros
          ones
          none)
  unfolding query_of
  query_of-other permission all_roles grants base other =
      fun_ext (λ zeros. fun_ext (λ ones. rw other refl))

module _ (predicates : Predicates) (fixed : List PermissionCell)
    (over : (permission : ℕ) → IsOver (length fixed) (predicates permission)) where
  required-IsOver :
      (permission : ℕ) → All (IsOver (length fixed)) (required_of predicates permission)
  required-IsOver permission = elim (Bool-cases (needs_send permission)) [
    | inl sends ↦ rw sends (over permission, (over 11, tt))
    | inr free ↦ rw free (over permission, tt)
  ]

  target_result-Found :
      (permission target : ℕ) (operations : List (Option Bool)) (base : Bool) (members : ℕ)
      → Found predicates fixed permission target operations base
      → ((i : ℕ) → bit members i ≡ true → i < length fixed)
      → (permission == 10 || evaluate_source_bit (predicates 10) members) ≡ true
      → target_result operations (grants_from 0 fixed target) base members
        ≡ grants_all (required_of predicates permission) members
  target_result-Found permission target operations base members found below sees =
      elim (Bool-cases (permission == 10)) [
        | inl view ↦
            let ten : permission ≡ 10 = ground arith in
            target_result-synthesize_bit (length fixed) (predicates 10) (grants_from 0 fixed target)
              base operations
              (rw
                (query_of-view predicates permission (low_mask (length fixed))
                  (grants_from 0 fixed target) base view)
                at found.synthesized)
              members below
            ∙ rw ten (ground arith)
        | inr other ↦
            target_result-synthesize_bit_visible (length fixed) (predicates 10)
              (required_of predicates permission) (grants_from 0 fixed target) base operations
              (over 10) (required-IsOver permission)
              (rw
                (query_of-other predicates permission (low_mask (length fixed))
                  (grants_from 0 fixed target) base other)
                at found.synthesized)
              members below (ground arith)
      ]

targets-paired :
    (permission : ℕ) (targets : List ℕ) (pairs : List (ℕ × ℕ))
    → map (λ p. p.1) (paired permission targets ++ pairs) ≡ targets ++ map (λ p. p.1) pairs
targets-paired permission [] pairs = refl
targets-paired permission (target ∷ targets) pairs = cc (targets-paired permission targets pairs)

targets-pairs_of : (table : List (ℕ × List ℕ)) → map (λ p. p.1) (pairs_of table) ≡ targets_of table
unfolding pairs_of targets_of
targets-pairs_of [] = refl
targets-pairs_of ((permission, targets) ∷ table) =
    targets-paired permission targets (pairs_of table)
    ∙ ap (λ t. targets ++ t) (targets-pairs_of table)

All-within :
    (pairs : List (ℕ × ℕ)) (bits : List ℕ)
    → ((i : ℕ) → contains (map (λ p. p.1) pairs) i ≡ true → contains bits i ≡ true)
    → All (λ p. contains bits p.1 ≡ true) pairs
unfolding contains
All-within [] bits within = tt
All-within (pair ∷ pairs) bits within =
    (within pair.1 (ground arith), All-within pairs bits (λ i h. within i (ground arith)))

All-imp {ℓ κ μ} :
    {A : Type ℓ} {P : A → Type κ} {Q : A → Type μ} (xs : List A)
    → ((x : A) → P x → Q x)
    → All P xs
    → All Q xs
All-imp [] f h = tt
All-imp (x ∷ xs) f h = (f x h.0, All-imp xs f h.1)

-- Exact access. If each position stands once in the table, there is a cell for each role, and
-- the source predicates are over these roles, then a channel that `compile_supported_bits` compiles
-- gives every membership of the roles, at every position of the table, exactly the source access:
-- visibility for visibility, and to those that see the channel in the source all the rest.
pub compile_channel-GivesAccess :
    (predicates : Predicates) (fixed : List PermissionCell) (table : List (ℕ × List ℕ))
    (old final : Proposal)
    → ((permission : ℕ) → IsOver (length fixed) (predicates permission))
    → distinct (targets_of table) ≡ true
    → length old.roles ≡ length fixed
    → compile_channel predicates fixed table old ≡ ok (some final)
    → All (λ p. GivesAccess predicates fixed final p.0 p.1) (pairs_of table)
unfolding compile_channel GivesAccess
compile_channel-GivesAccess predicates fixed table old final over once size compiled =
    let affected = bitfield (targets_of table) in
    let first = start affected old in
    let clear : All (λ p. IsClearAt p.1 first) (pairs_of table) =
      All-imp (pairs_of table) (λ p among. start-IsClearAt (targets_of table) p.1 old among)
        (All-within (pairs_of table) (targets_of table)
          (λ i h. subst (λ t. contains t i ≡ true) (targets-pairs_of table) h)) in
    All-imp (pairs_of table)
      (λ p is server_default members below sees.
        let same =
          target_result-Found predicates fixed over p.0 p.1 is.operations is.base members is.found
            below sees in
        rw (is.read, is.read_base server_default) same)
      (Written-IsRead predicates fixed (pairs_of table) first final
        (ap distinct (targets-pairs_of table) ∙ once) (start-length affected old ∙ size) clear
        (compile_table-Written predicates fixed table first final compiled))

-- Nothing else is touched. At every position that is not in the table, a channel that
-- `compile_supported_bits` compiles has what it had, in its default and in each role's cell.
pub compile_channel-held :
    (predicates : Predicates) (fixed : List PermissionCell) (table : List (ℕ × List ℕ))
    (old final : Proposal) (i : ℕ)
    → contains (targets_of table) i ≡ false
    → compile_channel predicates fixed table old ≡ ok (some final)
    → (held_at i final.default ≡ held_at i old.default)
      × (map (held_at i) final.roles ≡ map (held_at i) old.roles)
unfolding compile_channel start
compile_channel-held predicates fixed table old final i out compiled =
    let first = start (bitfield (targets_of table)) old in
    let kept =
      Written-Keeps predicates fixed (pairs_of table) i first final
        (ap (λ t. contains t i) (targets-pairs_of table) ∙ out)
        (compile_table-Written predicates fixed table first final compiled) in
    (
      kept.held ∙ keep_unaffected-held (targets_of table) i old.default out,
      kept.held_roles ∙ keep_unaffected-held_roles (targets_of table) i old.roles out,
    )
