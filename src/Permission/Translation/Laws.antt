-- ===== src/Permission/Translation/Laws.antt =====
-- What the translation grants: exactly the table, within Stoat's permissions.
use discord_stoat_ferry.Prelude.{
  ℕ, ◌^◌, ◌≡◌, ◌∙◌, refl, sym, ap, Bool, true, false, not, ◌&&◌, ◌||◌, List, [], ◌∷◌, ◌++◌,
  if◌then◌else◌, ◌==◌, arith, Bool-cases, inl, inr, all,
}
use discord_stoat_ferry.Bits.{
  bit, truthy, bit_and, bit_or, without, bit-bit_or, bit-pow, bit-zero, bit-without,
  truthy-bit_and-pow, covered, miss,
}
use discord_stoat_ferry.Permission.Translation.{
  discord_to_stoat, stoat_permission_bits, contains, add_bits, bitfield, all_stoat_permissions,
  targets_of, difference, administrator_only_bits, translate_from, translate_permissions,
}

bit-add_bits :
    (bits : List ℕ) (value i : ℕ) → bit (add_bits bits value) i ≡ (bit value i || contains bits i)
unfolding add_bits contains
bit-add_bits [] value i = ground arith
bit-add_bits (b ∷ bits) value i =
    ground
      (arith, bit-add_bits bits (bit_or value (2 ^ b)) i, bit-bit_or value (2 ^ b) i, bit-pow b i)

pub bit-bitfield : (bits : List ℕ) (i : ℕ) → bit (bitfield bits) i ≡ contains bits i
unfolding bitfield
bit-bitfield bits i = ground (arith, bit-add_bits bits 0 i, bit-zero i)

-- Some Discord position that is set has the Stoat position among its targets.
pub is_granted : List (ℕ × List ℕ) → ℕ → ℕ → Bool
is_granted [] discord_bits i = false
is_granted ((discord_bit, targets) ∷ table) discord_bits i =
    (bit discord_bits discord_bit && contains targets i) || is_granted table discord_bits i

bit-translate_from :
    (table : List (ℕ × List ℕ)) (discord_bits stoat_bits i : ℕ)
    → bit (translate_from table discord_bits stoat_bits) i
      ≡ (bit stoat_bits i || is_granted table discord_bits i)
unfolding translate_from is_granted
bit-translate_from [] discord_bits stoat_bits i = ground arith
bit-translate_from ((b, targets) ∷ table) discord_bits stoat_bits i = ground (
  arith,
  truthy-bit_and-pow discord_bits b,
  bit-translate_from table discord_bits (add_bits targets stoat_bits) i,
  bit-translate_from table discord_bits stoat_bits i,
  bit-add_bits targets stoat_bits i,
)

is_granted-union :
    (table : List (ℕ × List ℕ)) (a b i : ℕ)
    → is_granted table (bit_or a b) i ≡ (is_granted table a i || is_granted table b i)
unfolding is_granted
is_granted-union [] a b i = refl
is_granted-union ((d, targets) ∷ table) a b i =
    ground (arith, bit-bit_or a b d, is_granted-union table a b i)

-- No Discord position of the table is the one given.
keys_avoid : List (ℕ × List ℕ) → ℕ → Bool
keys_avoid [] k = true
keys_avoid ((d, targets) ∷ table) k = not (k == d) && keys_avoid table k

is_granted-without :
    (table : List (ℕ × List ℕ)) (discord_bits k i : ℕ)
    → keys_avoid table k ≡ true
    → is_granted table (without discord_bits (2 ^ k)) i ≡ is_granted table discord_bits i
unfolding is_granted keys_avoid
is_granted-without [] discord_bits k i h = refl
is_granted-without ((d, targets) ∷ table) discord_bits k i h = ground (
  arith,
  bit-without discord_bits (2 ^ k) d,
  bit-pow k d,
  is_granted-without table discord_bits k i,
)

is_granted-zero : (table : List (ℕ × List ℕ)) (i : ℕ) → is_granted table 0 i ≡ false
unfolding is_granted
is_granted-zero [] i = refl
is_granted-zero ((d, targets) ∷ table) i = ground (arith, bit-zero d, is_granted-zero table i)

administrator_not_mapped : keys_avoid discord_to_stoat 3 ≡ true
unfolding keys_avoid discord_to_stoat
administrator_not_mapped = refl

pub contains-append :
    (xs ys : List ℕ) (i : ℕ) → contains (xs ++ ys) i ≡ (contains xs i || contains ys i)
unfolding contains
contains-append [] ys i = refl
contains-append (x ∷ xs) ys i = ground (arith, contains-append xs ys i)

target_of_granted :
    (table : List (ℕ × List ℕ)) (discord_bits i : ℕ)
    → is_granted table discord_bits i ≡ true
    → contains (targets_of table) i ≡ true
unfolding is_granted targets_of contains
target_of_granted [] discord_bits i h = h
target_of_granted ((d, targets) ∷ table) discord_bits i h =
    ground
      (arith, contains-append targets (targets_of table) i, target_of_granted table discord_bits i)

contains_of_all :
    (xs ys : List ℕ) (i : ℕ)
    → all (contains ys) xs ≡ true
    → contains xs i ≡ true
    → contains ys i ≡ true
unfolding contains
contains_of_all [] ys i h k = cc
contains_of_all (x ∷ xs) ys i h k = elim (Bool-cases (x == i)) [
  | inl same ↦ let at : x ≡ i = ground arith in rw (← at) (ground arith)
  | inr other ↦ contains_of_all xs ys i (ground arith) (ground arith)
]

targets_defined : all (contains stoat_permission_bits) (targets_of discord_to_stoat) ≡ true
unfolding contains stoat_permission_bits targets_of discord_to_stoat
targets_defined = refl

not_target_of_difference :
    (bits targets : List ℕ) (i : ℕ)
    → contains (difference bits targets) i ≡ true
    → contains targets i ≡ false
unfolding contains difference
not_target_of_difference [] targets i h = cc
not_target_of_difference (b ∷ bits) targets i h = elim (Bool-cases (contains targets b)) [
  | inl target ↦ not_target_of_difference bits targets i (ground arith)
  | inr free ↦ elim (Bool-cases (b == i)) [
    | inl same ↦ let at : b ≡ i = ground arith in rw (← at) free
    | inr other ↦ not_target_of_difference bits targets i (ground arith)
  ]
]

bit-all_stoat_permissions : (i : ℕ) → bit all_stoat_permissions i ≡ contains stoat_permission_bits i
bit-all_stoat_permissions i =
    let defined : all_stoat_permissions ≡ bitfield stoat_permission_bits =
      unfold all_stoat_permissions in refl in
    ap (λ m. bit m i) defined ∙ bit-bitfield stoat_permission_bits i

bit-administrator_only_bits :
    (i : ℕ)
    → bit administrator_only_bits i
      ≡ contains (difference stoat_permission_bits (targets_of discord_to_stoat)) i
bit-administrator_only_bits i =
    let defined : administrator_only_bits
        ≡ bitfield (difference stoat_permission_bits (targets_of discord_to_stoat)) =
      unfold administrator_only_bits in refl in
    ap (λ m. bit m i) defined
    ∙ bit-bitfield (difference stoat_permission_bits (targets_of discord_to_stoat)) i

granted_from_zero :
    (discord_bits i : ℕ)
    → bit (translate_from discord_to_stoat discord_bits 0) i
      ≡ is_granted discord_to_stoat discord_bits i
granted_from_zero discord_bits i =
    ground (arith, bit-translate_from discord_to_stoat discord_bits 0 i, bit-zero i)

-- The translation of the rest of an overwrite, whose early return changes nothing.
granted_from_rest :
    (remaining i : ℕ)
    → bit (if remaining == 0 then 0 else translate_from discord_to_stoat remaining 0) i
      ≡ is_granted discord_to_stoat remaining i
granted_from_rest remaining i = elim (Bool-cases (remaining == 0)) [
  | inl nothing ↦
      let empty : remaining ≡ 0 = ground arith in
      rw nothing (
        bit-zero i
        ∙ sym
            (ap (λ m. is_granted discord_to_stoat m i) empty ∙ is_granted-zero discord_to_stoat i))
  | inr some_left ↦ rw some_left (granted_from_zero remaining i)
]

-- Inside an overwrite the translation grants a Stoat permission exactly if some Discord permission
-- that is set maps to it; ADMINISTRATOR counts for nothing there.
pub bit-translate_permissions_overwrite :
    (discord_bits i : ℕ)
    → bit (translate_permissions discord_bits true) i ≡ is_granted discord_to_stoat discord_bits i
unfolding translate_permissions
bit-translate_permissions_overwrite discord_bits i =
    elim (Bool-cases (truthy (bit_and discord_bits 8))) [
      | inl admin ↦ rw admin (
          granted_from_rest (without discord_bits 8) i
          ∙ is_granted-without discord_to_stoat discord_bits 3 i administrator_not_mapped)
      | inr other ↦ rw other (granted_from_zero discord_bits i)
    ]

-- On a role or the server default, ADMINISTRATOR grants every Stoat permission; without it the
-- translation grants exactly what the table maps the set Discord permissions to.
pub bit-translate_permissions_role :
    (discord_bits i : ℕ)
    → bit (translate_permissions discord_bits false) i ≡ (
        if bit discord_bits 3
        then contains stoat_permission_bits i
        else is_granted discord_to_stoat discord_bits i)
unfolding translate_permissions
bit-translate_permissions_role discord_bits i =
    rw (← truthy-bit_and-pow discord_bits 3) (elim (Bool-cases (truthy (bit_and discord_bits 8))) [
      | inl admin ↦ rw admin (bit-all_stoat_permissions i)
      | inr other ↦ rw other (granted_from_zero discord_bits i)
    ])

stoat_of_granted :
    (discord_bits i : ℕ)
    → is_granted discord_to_stoat discord_bits i ≡ true
    → contains stoat_permission_bits i ≡ true
stoat_of_granted discord_bits i h =
    contains_of_all (targets_of discord_to_stoat) stoat_permission_bits i targets_defined
      (target_of_granted discord_to_stoat discord_bits i h)

-- Whatever the Discord field and the scope, the translation sets only positions that Stoat's
-- permission enumeration defines.
pub translate_permissions-subset :
    (discord_bits : ℕ) (in_overwrite : Bool)
    → truthy (without (translate_permissions discord_bits in_overwrite) all_stoat_permissions)
      ≡ false
translate_permissions-subset discord_bits true = covered _ _ λ i p.
    bit-all_stoat_permissions i
    ∙ stoat_of_granted discord_bits i (sym (bit-translate_permissions_overwrite discord_bits i) ∙ p)
translate_permissions-subset discord_bits false = covered _ _ λ i p. ground (
  arith,
  bit-all_stoat_permissions i,
  bit-translate_permissions_role discord_bits i,
  stoat_of_granted discord_bits i,
)

-- A translated overwrite shares no position with `ADMINISTRATOR_ONLY_BITS`, so a saved overwrite
-- that does was not made by this translation.
pub translate_permissions-administrator_only :
    (discord_bits : ℕ)
    → truthy (bit_and (translate_permissions discord_bits true) administrator_only_bits) ≡ false
translate_permissions-administrator_only discord_bits = miss _ _ λ i p. ground (
  arith,
  bit-translate_permissions_overwrite discord_bits i,
  bit-administrator_only_bits i,
  target_of_granted discord_to_stoat discord_bits i,
  not_target_of_difference stoat_permission_bits (targets_of discord_to_stoat) i,
)

-- Inside an overwrite the translation of a union is the union of the translations.
pub translate_permissions-union :
    (a b i : ℕ)
    → bit (translate_permissions (bit_or a b) true) i
      ≡ bit (bit_or (translate_permissions a true) (translate_permissions b true)) i
translate_permissions-union a b i = ground (
  arith,
  bit-translate_permissions_overwrite (bit_or a b) i,
  bit-translate_permissions_overwrite a i,
  bit-translate_permissions_overwrite b i,
  bit-bit_or (translate_permissions a true) (translate_permissions b true) i,
  is_granted-union discord_to_stoat a b i,
)
