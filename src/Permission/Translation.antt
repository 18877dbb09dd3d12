-- ===== src/Permission/Translation.antt =====
-- discord/permissions.py: the translation of a Discord permission field to a Stoat one.
pub mod Laws
use discord_stoat_ferry.Prelude.{
  ℕ, ◌^◌, Bool, true, false, not, ◌&&◌, ◌||◌, List, [], ◌∷◌, ◌++◌, if◌then◌else◌, ◌==◌,
}
use discord_stoat_ferry.Bits.{truthy, bit_and, bit_or, without}

-- One target position is a list of one.
pub discord_to_stoat : List (ℕ × List ℕ)
discord_to_stoat =
    (0, 25 ∷ [])
    ∷ (1, 6 ∷ [])
    ∷ (2, 7 ∷ [])
    ∷ (4, 0 ∷ [])
    ∷ (5, 1 ∷ [])
    ∷ (7, 40 ∷ [])
    ∷ (28, 2 ∷ 3 ∷ 9 ∷ [])
    ∷ (30, 4 ∷ [])
    ∷ (10, 20 ∷ [])
    ∷ (16, 21 ∷ [])
    ∷ (11, 22 ∷ [])
    ∷ (13, 23 ∷ [])
    ∷ (14, 26 ∷ [])
    ∷ (15, 27 ∷ [])
    ∷ (6, 29 ∷ [])
    ∷ (17, 37 ∷ 38 ∷ [])
    ∷ (26, 10 ∷ [])
    ∷ (27, 11 ∷ [])
    ∷ (29, 24 ∷ [])
    ∷ (40, 8 ∷ [])
    ∷ (52, 39 ∷ [])
    ∷ (9, 32 ∷ [])
    ∷ (20, 30 ∷ 36 ∷ [])
    ∷ (21, 31 ∷ [])
    ∷ (22, 33 ∷ [])
    ∷ (23, 34 ∷ [])
    ∷ (24, 35 ∷ [])
    ∷ []

pub stoat_permission_bits : List ℕ
stoat_permission_bits =
    0 ∷ 1 ∷ 2 ∷ 3 ∷ 4 ∷ 6 ∷ 7 ∷ 8 ∷ 9 ∷ 10 ∷ 11 ∷ 12 ∷ 13 ∷ 20 ∷ 21 ∷ 22 ∷ 23 ∷ 24 ∷ 25 ∷ 26 ∷ 27
    ∷ 28 ∷ 29 ∷ 30 ∷ 31 ∷ 32 ∷ 33 ∷ 34 ∷ 35 ∷ 36 ∷ 37 ∷ 38 ∷ 39 ∷ 40 ∷ []

-- `bit in bits`
unfoldable pub contains : List ℕ → ℕ → Bool
contains [] i = false
contains (bit ∷ bits) i = bit == i || contains bits i

-- `value |= 1 << bit` for each position
unfoldable pub add_bits : List ℕ → ℕ → ℕ
add_bits [] value = value
add_bits (bit ∷ bits) value = add_bits bits (bit_or value (2 ^ bit))

unfoldable pub bitfield : List ℕ → ℕ
unfolding add_bits
bitfield bits = add_bits bits 0

pub all_stoat_permissions : ℕ
unfolding bitfield stoat_permission_bits
all_stoat_permissions = bitfield stoat_permission_bits

unfoldable pub targets_of : List (ℕ × List ℕ) → List ℕ
targets_of [] = []
targets_of ((discord_bit, targets) ∷ table) = targets ++ targets_of table

pub difference : List ℕ → List ℕ → List ℕ
difference [] targets = []
difference (bit ∷ bits) targets =
    let rest = difference bits targets in if contains targets bit then rest else bit ∷ rest

pub administrator_only_bits : ℕ
unfolding bitfield difference contains targets_of stoat_permission_bits discord_to_stoat
administrator_only_bits = bitfield (difference stoat_permission_bits (targets_of discord_to_stoat))

-- The loop over the table.
pub translate_from : List (ℕ × List ℕ) → ℕ → ℕ → ℕ
translate_from [] discord_bits stoat_bits = stoat_bits
translate_from ((discord_bit, targets) ∷ table) discord_bits stoat_bits =
    translate_from table discord_bits (
      if truthy (bit_and discord_bits (2 ^ discord_bit))
      then add_bits targets stoat_bits
      else stoat_bits)

pub translate_permissions : ℕ → Bool → ℕ
translate_permissions discord_bits in_overwrite =
    if truthy (bit_and discord_bits (2 ^ 3))
    then (if in_overwrite
        then (let remaining = without discord_bits (2 ^ 3) in
            if remaining == 0 then 0 else translate_from discord_to_stoat remaining 0)
        else all_stoat_permissions)
    else translate_from discord_to_stoat discord_bits 0
