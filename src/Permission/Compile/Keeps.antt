-- ===== src/Permission/Compile/Keeps.antt =====
-- core/permissions.py: what writing one target leaves of the other positions.
use discord_stoat_ferry.Prelude.{
  ℕ, ◌^◌, ◌≡◌, refl, sym, ◌∙◌, Bool, true, false, Option, none, some, List, [], ◌∷◌, length, map,
  ap, arith, All, ◌==◌,
}
use discord_stoat_ferry.Bits.{
  bit, truthy, bit_and, bit_or, without, bit-bit_or, bit-without, bit-pow, truthy-bit_and-pow,
}
use discord_stoat_ferry.Permission.Compile.{
  PermissionCell, Proposal, allow_if, set_operation, set_operations, propose, base_at,
  operations_at,
}
use discord_stoat_ferry.Permission.Compile.Cells.{IsClear, IsClearAt, operation_at}

pub set_operations-length :
    (operations : List (Option Bool)) (mask : ℕ) (cells : List PermissionCell)
    → length (set_operations operations mask cells) ≡ length cells
unfolding set_operations
set_operations-length [] mask cells = refl
set_operations-length (operation ∷ operations) mask [] = refl
set_operations-length (operation ∷ operations) mask (cell ∷ cells) =
    omega (arith, set_operations-length operations mask cells)

-- What a cell holds at a position.
abbrev pub held_at : ℕ → PermissionCell → Bool × Bool
held_at i cell = (bit cell.allow i, bit cell.deny i)

-- What a write leaves of another position.
pub record Keeps (other : ℕ) (before after : Proposal) : Type 0 where
  pub base :
      (server_default : ℕ)
      → base_at server_default after other ≡ base_at server_default before other
  pub operations : operations_at after.roles other ≡ operations_at before.roles other
  pub clear : IsClearAt other before → IsClearAt other after
  pub count : length after.roles ≡ length before.roles
  pub held : held_at other after.default ≡ held_at other before.default
  pub held_roles : map (held_at other) after.roles ≡ map (held_at other) before.roles

pub Keeps-refl : (other : ℕ) (proposal : Proposal) → Keeps other proposal proposal
Keeps-refl other proposal = record {
  base = λ d. refl;
  operations = refl;
  clear = λ c. c;
  count = refl;
  held = refl;
  held_roles = refl;
}

pub Keeps-trans :
    (other : ℕ) (a b c : Proposal) → Keeps other a b → Keeps other b c → Keeps other a c
Keeps-trans other a b c first second = record {
  base = λ d. second.base d ∙ first.base d;
  operations = second.operations ∙ first.operations;
  clear = λ h. second.clear (first.clear h);
  count = second.count ∙ first.count;
  held = second.held ∙ first.held;
  held_roles = second.held_roles ∙ first.held_roles;
}

module _ (target other : ℕ) (apart : target == other ≡ false) where
  truthy-or_other :
      (m : ℕ)
      → truthy (bit_and (bit_or m (2 ^ target)) (2 ^ other)) ≡ truthy (bit_and m (2 ^ other))
  truthy-or_other m =
      truthy-bit_and-pow (bit_or m (2 ^ target)) other
      ∙ ground (arith, bit-bit_or m (2 ^ target) other, bit-pow target other)
      ∙ sym (truthy-bit_and-pow m other)

  bit-or_other : (m : ℕ) → bit (bit_or m (2 ^ target)) other ≡ bit m other
  bit-or_other m = ground (arith, bit-bit_or m (2 ^ target) other, bit-pow target other)

  operation_at-other :
      (operation : Option Bool) (cell : PermissionCell)
      → operation_at (set_operation operation (2 ^ target) cell) other ≡ operation_at cell other
  operation_at-other none cell = refl
  operation_at-other (some true) cell = rw (truthy-or_other cell.allow)
  operation_at-other (some false) cell = rw (truthy-or_other cell.deny)

  operations_at-other :
      (operations : List (Option Bool)) (cells : List PermissionCell)
      → operations_at (set_operations operations (2 ^ target) cells) other
        ≡ operations_at cells other
  unfolding operations_at set_operations
  operations_at-other [] cells = refl
  operations_at-other (operation ∷ operations) [] = refl
  operations_at-other (operation ∷ operations) (cell ∷ cells) =
      cc (operation_at-other operation cell, operations_at-other operations cells)

  set_operation-IsClear :
      (operation : Option Bool) (cell : PermissionCell)
      → IsClear other cell
      → IsClear other (set_operation operation (2 ^ target) cell)
  set_operation-IsClear none cell clear = clear
  set_operation-IsClear (some true) cell clear = record {
    not_allowed = bit-or_other cell.allow ∙ clear.not_allowed;
    not_denied = clear.not_denied;
  }
  set_operation-IsClear (some false) cell clear = record {
    not_allowed = clear.not_allowed;
    not_denied = bit-or_other cell.deny ∙ clear.not_denied;
  }

  set_operations-IsClear :
      (operations : List (Option Bool)) (cells : List PermissionCell)
      → All (IsClear other) cells
      → All (IsClear other) (set_operations operations (2 ^ target) cells)
  unfolding set_operations
  set_operations-IsClear [] cells clear = clear
  set_operations-IsClear (operation ∷ operations) [] clear = tt
  set_operations-IsClear (operation ∷ operations) (cell ∷ cells) clear = (
    set_operation-IsClear operation cell clear.0,
    set_operations-IsClear operations cells clear.1,
  )

  set_operation-held :
      (operation : Option Bool) (cell : PermissionCell)
      → held_at other (set_operation operation (2 ^ target) cell) ≡ held_at other cell
  set_operation-held none cell = refl
  set_operation-held (some true) cell = ap (λ b. (b, bit cell.deny other)) (bit-or_other cell.allow)
  set_operation-held (some false) cell =
      ap (λ b. (bit cell.allow other, b)) (bit-or_other cell.deny)

  set_operations-held :
      (operations : List (Option Bool)) (cells : List PermissionCell)
      → map (held_at other) (set_operations operations (2 ^ target) cells)
        ≡ map (held_at other) cells
  unfolding set_operations
  set_operations-held [] cells = refl
  set_operations-held (operation ∷ operations) [] = refl
  set_operations-held (operation ∷ operations) (cell ∷ cells) =
      cc (set_operation-held operation cell, set_operations-held operations cells)

  base_at-other :
      (server_default : ℕ) (operations : List (Option Bool)) (base : Bool) (proposal : Proposal)
      → base_at server_default (propose operations base target proposal) other
        ≡ base_at server_default proposal other
  unfolding base_at
  base_at-other server_default operations true proposal =
      let allow = proposal.default.allow in
      let deny = proposal.default.deny in
      truthy-bit_and-pow (without (bit_or server_default (bit_or allow (2 ^ target))) deny) other
      ∙ ground (
        arith,
        bit-without (bit_or server_default (bit_or allow (2 ^ target))) deny other,
        bit-bit_or server_default (bit_or allow (2 ^ target)) other,
        bit-without (bit_or server_default allow) deny other,
        bit-bit_or server_default allow other,
        bit-or_other allow,
      )
      ∙ sym (truthy-bit_and-pow (without (bit_or server_default allow) deny) other)
  base_at-other server_default operations false proposal =
      let allow = proposal.default.allow in
      let deny = proposal.default.deny in
      truthy-bit_and-pow (without (bit_or server_default allow) (bit_or deny (2 ^ target))) other
      ∙ ground (
        arith,
        bit-without (bit_or server_default allow) (bit_or deny (2 ^ target)) other,
        bit-without (bit_or server_default allow) deny other,
        bit-or_other deny,
      )
      ∙ sym (truthy-bit_and-pow (without (bit_or server_default allow) deny) other)

  pub propose-Keeps :
      (operations : List (Option Bool)) (base : Bool) (proposal : Proposal)
      → Keeps other proposal (propose operations base target proposal)
  propose-Keeps operations base proposal = record {
    base = λ d. base_at-other d operations base proposal;
    operations = operations_at-other operations proposal.roles;
    clear = λ h. record {
      default = default_clear base h.default;
      roles = set_operations-IsClear operations proposal.roles h.roles;
    };
    count = set_operations-length operations (2 ^ target) proposal.roles;
    held = default_held base;
    held_roles = set_operations-held operations proposal.roles;
  }
    where
      default_clear :
          (b : Bool)
          → IsClear other proposal.default
          → IsClear other (allow_if b (2 ^ target) proposal.default)
      default_clear true clear = set_operation-IsClear (some true) proposal.default clear
      default_clear false clear = set_operation-IsClear (some false) proposal.default clear

      default_held :
          (b : Bool)
          → held_at other (allow_if b (2 ^ target) proposal.default)
            ≡ held_at other proposal.default
      default_held true = set_operation-held (some true) proposal.default
      default_held false = set_operation-held (some false) proposal.default
