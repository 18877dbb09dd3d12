-- ===== src/Permission/Compile/Start.antt =====
-- core/permissions.py: the cells from which `compile_supported_bits` starts.
use discord_stoat_ferry.Prelude.{ℕ, ◌≡◌, refl, true, false, List, [], ◌∷◌, length, map, arith, All}
use discord_stoat_ferry.Bits.{bit, without, bit-without}
use discord_stoat_ferry.Permission.Translation.{contains, bitfield}
use discord_stoat_ferry.Permission.Translation.Laws.{bit-bitfield}
use discord_stoat_ferry.Permission.Compile.{PermissionCell, Proposal, keep_unaffected, start}
use discord_stoat_ferry.Permission.Compile.Cells.{IsClear, IsClearAt}
use discord_stoat_ferry.Permission.Compile.Keeps.{held_at}

-- `start` clears the positions of the table.
IsClear-keep_unaffected :
    (bits : List ℕ) (i : ℕ) (cell : PermissionCell)
    → contains bits i ≡ true
    → IsClear i (keep_unaffected (bitfield bits) cell)
IsClear-keep_unaffected bits i cell among = record {
  not_allowed = ground (arith, bit-without cell.allow (bitfield bits) i, bit-bitfield bits i);
  not_denied = ground (arith, bit-without cell.deny (bitfield bits) i, bit-bitfield bits i);
}

pub start-IsClearAt :
    (bits : List ℕ) (i : ℕ) (old : Proposal)
    → contains bits i ≡ true
    → IsClearAt i (start (bitfield bits) old)
unfolding start
start-IsClearAt bits i old among = record {
  default = IsClear-keep_unaffected bits i old.default among;
  roles = cells old.roles;
}
  where
    cells :
        (roles : List PermissionCell)
        → All (IsClear i) (map (keep_unaffected (bitfield bits)) roles)
    cells [] = tt
    cells (cell ∷ roles) = (IsClear-keep_unaffected bits i cell among, cells roles)

pub start-length :
    (affected : ℕ) (old : Proposal) → length (start affected old).roles ≡ length old.roles
unfolding start
start-length affected old = go old.roles
  where
    go :
        (roles : List PermissionCell) → length (map (keep_unaffected affected) roles) ≡ length roles
    go [] = refl
    go (cell ∷ roles) = omega (arith, go roles)

-- `start` keeps the other positions.
pub keep_unaffected-held :
    (bits : List ℕ) (i : ℕ) (cell : PermissionCell)
    → contains bits i ≡ false
    → held_at i (keep_unaffected (bitfield bits) cell) ≡ held_at i cell
keep_unaffected-held bits i cell out =
    let allow : bit (without cell.allow (bitfield bits)) i ≡ bit cell.allow i =
      ground (arith, bit-without cell.allow (bitfield bits) i, bit-bitfield bits i) in
    let deny : bit (without cell.deny (bitfield bits)) i ≡ bit cell.deny i =
      ground (arith, bit-without cell.deny (bitfield bits) i, bit-bitfield bits i) in
    cc (allow, deny)

pub keep_unaffected-held_roles :
    (bits : List ℕ) (i : ℕ) (cells : List PermissionCell)
    → contains bits i ≡ false
    → map (held_at i) (map (keep_unaffected (bitfield bits)) cells) ≡ map (held_at i) cells
keep_unaffected-held_roles bits i [] out = refl
keep_unaffected-held_roles bits i (cell ∷ cells) out =
    cc (keep_unaffected-held bits i cell out, keep_unaffected-held_roles bits i cells out)
