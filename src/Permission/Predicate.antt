-- ===== src/Permission/Predicate.antt =====
-- core/permissions.py: `BitPredicate`, `evaluate_source_bit` and `constant_result`.
-- A mask of role indices is a native number, and `&`, `|`, `& ~` are those of Bits.
use discord_stoat_ferry.Prelude.{
  ℕ, ◌≡◌, Bool, true, false, not, ◌&&◌, ◌||◌, Option, none, some, if◌then◌else◌,
}
use discord_stoat_ferry.Prelude.Result.{Result, ok, err}
use discord_stoat_ferry.Bits.{bit, truthy, bit_and, bit_or, without}

pub record BitPredicate : Type 0 where
  pub p : ℕ
  pub n : ℕ
  pub g : ℕ
  pub c : Bool

-- The exceptions of this part of core/permissions.py.
pub data PermissionError : Type 0 where
  value_error assertion_error : PermissionError

unfoldable pub evaluate_source_bit : BitPredicate → ℕ → Bool
evaluate_source_bit predicate members =
    truthy (bit_and predicate.p members)
    || (not (truthy (bit_and predicate.n members))
        && (predicate.c || truthy (bit_and predicate.g members)))

-- The result once the constraints are known to share the universe, a branch for each `if`.
unfoldable pub constant_in : BitPredicate → ℕ → ℕ → Option Bool
constant_in r unknown ones =
    if truthy (bit_and r.p ones)
    then some true
    else if not (truthy (bit_and r.n ones))
        && not (truthy (without (bit_and r.n unknown) r.p))
        && (r.c || truthy (bit_and r.g ones))
    then some true
    else if truthy (bit_and r.p unknown)
    then none
    else if truthy (bit_and r.n ones)
    then some false
    else if not r.c
        && not (truthy (bit_and r.g ones))
        && not (truthy (without (bit_and r.g unknown) r.n))
    then some false
    else none

-- `(p.P | p.N | p.G | zeros | ones) & ~all_roles or zeros & ones`
abbrev pub outside_universe : BitPredicate → ℕ → ℕ → ℕ → Bool
outside_universe r all_roles zeros ones =
    truthy (without (bit_or (bit_or (bit_or (bit_or r.p r.n) r.g) zeros) ones) all_roles)
    || truthy (bit_and zeros ones)

unfoldable pub constant_result : BitPredicate → ℕ → ℕ → ℕ → Result PermissionError (Option Bool)
unfolding constant_in
constant_result r all_roles zeros ones =
    if outside_universe r all_roles zeros ones
    then err value_error
    else ok (constant_in r (without all_roles (bit_or zeros ones)) ones)

-- The memberships within `all_roles` that hold none of `zeros` and all of `ones`.
pub record Cube (all_roles zeros ones members : ℕ) : Type 0 where
  pub within : (i : ℕ) → bit members i ≡ true → bit all_roles i ≡ true
  pub absent : (i : ℕ) → bit zeros i ≡ true → bit members i ≡ false
  pub present : (i : ℕ) → bit ones i ≡ true → bit members i ≡ true
