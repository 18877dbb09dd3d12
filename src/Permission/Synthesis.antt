-- ===== src/Permission/Synthesis.antt =====
-- core/permissions.py: `_fallback_matches`, `_encoding_matches` and `synthesize_bit`.
-- A query, and the test made of it, is the caller's function and may raise. A tuple of overrides is
-- a list with the lowest priority first.
pub mod Meaning
pub mod Agreement
pub mod Soundness
pub mod Reaching
pub mod Completeness
pub mod Search
pub mod Exact
use discord_stoat_ferry.Prelude.{
  ℕ, zero, suc, ◌+◌, ◌^◌, ◌≡◌, Bool, true, false, not, ◌&&◌, ◌||◌, Option, none, some, List, length,
  set, get_or, replicate, if◌then◌else◌,
}
use discord_stoat_ferry.Prelude.Result.{Result, ok, err, ◌>>=◌, ◌>>◌, raise_if}
use discord_stoat_ferry.Bits.{bit, truthy, bit_and, bit_or, without, low_mask}
use discord_stoat_ferry.Permission.Predicate.{PermissionError, value_error}

-- `Callable[[int, int], bool | None]` and `Callable[[int, int, bool], bool]`
abbrev pub Query : Type 0
Query = ℕ → ℕ → Result PermissionError (Option Bool)

abbrev pub Test : Type 0
Test = ℕ → ℕ → Bool → Result PermissionError Bool

-- The `all(…)` of `_fallback_matches` over the indices from `index` on, `left` of them.
unfoldable pub granted_agree : ℕ → ℕ → Test → ℕ → ℕ → Result PermissionError Bool
granted_agree zero _ _ _ _ = ok true
granted_agree (suc left) index agrees grants zeros =
    let rest = granted_agree left (index + 1) agrees grants zeros in
    if truthy (bit_and grants (2 ^ index)) && not (truthy (bit_and zeros (2 ^ index)))
    then (do agreed ← agrees zeros (2 ^ index) true; if agreed then rest else ok false)
    else rest

unfoldable pub fallback_matches : ℕ → Test → ℕ → Bool → ℕ → Result PermissionError Bool
fallback_matches role_count agrees grants true zeros = agrees zeros 0 true
fallback_matches role_count agrees grants false zeros = do
  agreed ← agrees (bit_or zeros grants) 0 false
  if agreed then granted_agree role_count 0 agrees grants zeros else ok false

-- The loop of `_encoding_matches`, from `index - 1` down; None is an override that disagreed.
pub overrides_agree : ℕ → List (Option Bool) → Test → ℕ → Result PermissionError (Option ℕ)
overrides_agree zero operations agrees zeros = ok (some zeros)
overrides_agree (suc index) operations agrees zeros = elim (get_or operations index none) [
  | none ↦ overrides_agree index operations agrees zeros
  | some operation ↦ do
    agreed ← agrees zeros (2 ^ index) operation
    elim agreed [
      | true ↦ overrides_agree index operations agrees (bit_or zeros (2 ^ index))
      | false ↦ ok none
    ]
]

abbrev after_overrides : ℕ → Test → ℕ → Bool → Option ℕ → Result PermissionError Bool
after_overrides role_count agrees grants base none = ok false
after_overrides role_count agrees grants base (some zeros) =
    fallback_matches role_count agrees grants base zeros

pub encoding_matches : List (Option Bool) → Test → ℕ → Bool → Result PermissionError Bool
encoding_matches operations agrees grants base = do
  zeros ← overrides_agree (length operations) operations agrees 0
  after_overrides (length operations) agrees grants base zeros

-- `ask(zeros, ones) is wanted`
abbrev pub is_bool : Option Bool → Bool → Bool
is_bool none wanted = false
is_bool (some true) wanted = wanted
is_bool (some false) wanted = not wanted

abbrev pub is_wanted : Query → Test
is_wanted query zeros ones wanted = query zeros ones >>= λ result. ok (is_bool result wanted)

-- The loop of `synthesize_bit`, from `index - 1` down.
unfoldable pub synthesize_from :
    ℕ → Query → List (Option Bool) → ℕ → Result PermissionError (List (Option Bool) × ℕ)
synthesize_from zero query operations zeros = ok (operations, zeros)
synthesize_from (suc index) query operations zeros = do
  result ← query zeros (2 ^ index)
  elim result [
    | none ↦ synthesize_from index query operations zeros
    | some value ↦
        synthesize_from index query (set operations index (some value)) (bit_or zeros (2 ^ index))
  ]

unfoldable pub synthesize_bit :
    ℕ → Query → ℕ → Bool → Result PermissionError (Option (List (Option Bool)))
synthesize_bit role_count query target_grants base = do
  raise_if (truthy (without target_grants (low_mask role_count))) value_error
  (operations, zeros) ← synthesize_from role_count query (replicate role_count none) 0
  matches ← fallback_matches role_count (is_wanted query) target_grants base zeros
  ok (if matches then some operations else none)
