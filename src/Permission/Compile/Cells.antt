-- ===== src/Permission/Compile/Cells.antt =====
-- core/permissions.py: what one target of a permission writes into cells.
use discord_stoat_ferry.Prelude.{
  ℕ, ◌^◌, ◌≡◌, refl, ◌∙◌, Bool, true, false, Option, none, some, List, [], ◌∷◌, length, arith, All,
  if◌then◌else◌,
}
use discord_stoat_ferry.Bits.{
  bit, truthy, bit_and, bit_or, bit-bit_or, bit-without, bit-pow, truthy-bit_and-pow,
}
use discord_stoat_ferry.Permission.Compile.{
  PermissionCell, Proposal, set_operation, set_operations, propose, base_at, operations_at,
}

-- A cell that does not touch a position.
pub record IsClear (target : ℕ) (cell : PermissionCell) : Type 0 where
  pub not_allowed : bit cell.allow target ≡ false
  pub not_denied : bit cell.deny target ≡ false

pub record IsClearAt (target : ℕ) (proposal : Proposal) : Type 0 where
  pub default : IsClear target proposal.default
  pub roles : All (IsClear target) proposal.roles

-- What a cell says of a position.
abbrev pub operation_at : PermissionCell → ℕ → Option Bool
operation_at cell target =
    if truthy (bit_and cell.deny (2 ^ target))
    then some false
    else if truthy (bit_and cell.allow (2 ^ target))
    then some true
    else none

pub operation_at-set_operation :
    (operation : Option Bool) (target : ℕ) (cell : PermissionCell)
    → IsClear target cell
    → operation_at (set_operation operation (2 ^ target) cell) target ≡ operation
operation_at-set_operation none target cell clear =
    ground (arith, truthy-bit_and-pow cell.deny target, truthy-bit_and-pow cell.allow target)
operation_at-set_operation (some true) target cell clear = ground (
  arith,
  truthy-bit_and-pow cell.deny target,
  truthy-bit_and-pow (bit_or cell.allow (2 ^ target)) target,
  bit-bit_or cell.allow (2 ^ target) target,
  bit-pow target target,
)
operation_at-set_operation (some false) target cell clear = ground (
  arith,
  truthy-bit_and-pow (bit_or cell.deny (2 ^ target)) target,
  bit-bit_or cell.deny (2 ^ target) target,
  bit-pow target target,
)

-- The operations are read back.
pub operations_at-set_operations :
    (operations : List (Option Bool)) (target : ℕ) (cells : List PermissionCell)
    → length operations ≡ length cells
    → All (IsClear target) cells
    → operations_at (set_operations operations (2 ^ target) cells) target ≡ operations
unfolding operations_at set_operations
operations_at-set_operations [] target [] same clear = refl
operations_at-set_operations [] target (cell ∷ cells) same clear = absurd (omega arith)
operations_at-set_operations (operation ∷ operations) target [] same clear = absurd (omega arith)
operations_at-set_operations (operation ∷ operations) target (cell ∷ cells) same clear = cc (
  operation_at-set_operation operation target cell clear.0,
  operations_at-set_operations operations target cells (omega arith) clear.1,
)

pub base_at-propose :
    (server_default : ℕ) (operations : List (Option Bool)) (base : Bool) (target : ℕ)
    (proposal : Proposal)
    → IsClear target proposal.default
    → base_at server_default (propose operations base target proposal) target ≡ base
unfolding base_at
base_at-propose server_default operations true target proposal clear =
    truthy-bit_and-pow _ target
    ∙ ground (
      arith,
      bit-without (bit_or server_default (bit_or proposal.default.allow (2 ^ target)))
          proposal.default.deny target,
      bit-bit_or server_default (bit_or proposal.default.allow (2 ^ target)) target,
      bit-bit_or proposal.default.allow (2 ^ target) target,
      bit-pow target target,
    )
base_at-propose server_default operations false target proposal clear =
    truthy-bit_and-pow _ target
    ∙ ground (
      arith,
      bit-without (bit_or server_default proposal.default.allow)
          (bit_or proposal.default.deny (2 ^ target)) target,
      bit-bit_or proposal.default.deny (2 ^ target) target,
      bit-pow target target,
    )
