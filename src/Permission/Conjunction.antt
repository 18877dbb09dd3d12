-- ===== src/Permission/Conjunction.antt =====
-- core/permissions.py: `_predicate_terms`, `_conjunction_possible` and `_visible_bit_query`.
pub mod Terms
pub mod Wellformed
pub mod Deciding
pub mod Possible
pub mod Visible
use discord_stoat_ferry.Prelude.{
  ℕ, zero, suc, Bool, true, false, not, ◌&&◌, ◌||◌, Option, none, some, List, [], ◌∷◌, ◌++◌, map,
  if◌then◌else◌,
}
use discord_stoat_ferry.Prelude.Result.{Result, ok, err, ◌>>=◌}
use discord_stoat_ferry.Bits.{truthy, bit_and, bit_or, bit_xor, without}
use discord_stoat_ferry.Bits.Lowest.{lowest}
use discord_stoat_ferry.Permission.Predicate.{BitPredicate, PermissionError, constant_result}

-- The loop over `candidates`, on fuel: a cube for each role, with the same roles absent.
unfoldable pub role_terms : ℕ → ℕ → ℕ → List (ℕ × ℕ)
role_terms zero absent candidates = []
role_terms (suc fuel) absent candidates =
    let rest = role_terms fuel absent (bit_xor candidates (lowest candidates)) in
    if truthy candidates then (absent, lowest candidates) ∷ rest else []

-- Each round lowers the candidates, so that they are fuel for their own loop.
unfoldable pub predicate_terms : BitPredicate → Bool → List (ℕ × ℕ)
predicate_terms predicate true =
    role_terms predicate.p 0 predicate.p
    ++ (if predicate.c
        then (predicate.n, 0) ∷ []
        else role_terms (without predicate.g predicate.n) predicate.n
            (without predicate.g predicate.n))
predicate_terms predicate false =
    role_terms (without predicate.n predicate.p) predicate.p (without predicate.n predicate.p)
    ++ (if predicate.c then [] else (bit_or predicate.p predicate.g, 0) ∷ [])

abbrev pub Condition : Type 0
Condition = BitPredicate × Bool

-- `constant is wanted` for a Boolean constant
abbrev pub is_same : Bool → Bool → Bool
is_same true wanted = wanted
is_same false wanted = not wanted

-- The `for` loop of `_conjunction_possible`; `possible` is the recursive call.
unfoldable pub any_term :
    (ℕ → ℕ → Result PermissionError Bool) → List (ℕ × ℕ) → ℕ → ℕ → Result PermissionError Bool
any_term possible [] _ _ = ok false
any_term possible ((absent, present) ∷ terms) zeros ones =
    let rest = any_term possible terms zeros ones in
    if truthy (bit_and zeros present) || truthy (bit_and ones absent) then rest else do
      found ← possible (bit_or zeros absent) (bit_or ones present)
      if found then ok true else rest

unfoldable pub conjunction_possible : List Condition → ℕ → ℕ → ℕ → Result PermissionError Bool
conjunction_possible [] _ _ _ = ok true
conjunction_possible ((predicate, wanted) ∷ conditions) all_roles zeros ones = do
  constant ← constant_result predicate all_roles zeros ones
  elim constant [
    | some value ↦
        if is_same value wanted
        then conjunction_possible conditions all_roles zeros ones
        else ok false
    | none ↦
        any_term (conjunction_possible conditions all_roles) (predicate_terms predicate wanted)
          zeros ones
  ]

-- `any(_conjunction_possible(visible + ((p, False),), …) for p in required)`
unfoldable pub any_denied :
    BitPredicate → List BitPredicate → ℕ → ℕ → ℕ → Result PermissionError Bool
any_denied _ [] _ _ _ = ok false
any_denied view (p ∷ required) all_roles zeros ones =
    let rest = any_denied view required all_roles zeros ones in
    do
      found ← conjunction_possible ((view, true) ∷ (p, false) ∷ []) all_roles zeros ones
      if found then ok true else rest

unfoldable pub visible_bit_query :
    BitPredicate
    → List BitPredicate
    → ℕ
    → ℕ
    → Bool
    → ℕ
    → ℕ
    → Option Bool
    → Result PermissionError (Option Bool)
visible_bit_query view required all_roles grants base zeros ones hidden_result = do
  can_allow ←
      conjunction_possible ((view, true) ∷ map (λ p. (p, true)) required) all_roles zeros ones
  can_deny ← any_denied view required all_roles zeros ones
  ok (
      if can_allow && can_deny
      then none
      else if can_allow || can_deny
      then some can_allow
      else elim hidden_result [
        | none ↦ some (base || truthy (bit_and grants ones))
        | some hidden ↦ some hidden
      ])
