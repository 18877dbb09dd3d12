-- ===== src/Permission/Constant.antt =====
-- `constant_result` of core/permissions.py is exact: an answer is the result of every membership
-- that the constraints allow, and no answer means that both results occur.
use discord_stoat_ferry.Prelude.{
  ℕ, ◌≡◌, ◌∙◌, Bool, true, false, ◌||◌, Option, none, some, arith, inl, inr, Bool-cases,
}
use discord_stoat_ferry.Prelude.Result.{ok}
use discord_stoat_ferry.Bits.{
  bit, truthy, bit_and, bit_or, without, bit-bit_or, of_miss, of_covered,
}
use discord_stoat_ferry.Permission.Predicate.{
  BitPredicate, evaluate_source_bit, constant_in, outside_universe, constant_result, Cube,
}
use discord_stoat_ferry.Permission.Cubes.{
  evaluate-constant_in, Shared, Cube-extend, subset_of_free, lowest, evaluate-lowest, highest,
  evaluate-highest,
}

-- What an answer says of the memberships that the constraints allow.
abbrev pub Constancy : BitPredicate → ℕ → ℕ → ℕ → Option Bool → Type 0
Constancy r all_roles zeros ones (some answer) =
    (members : ℕ) → Cube all_roles zeros ones members → evaluate_source_bit r members ≡ answer
Constancy r all_roles zeros ones none =
    ((members : ℕ) × Cube all_roles zeros ones members × (evaluate_source_bit r members ≡ true))
    × ((members : ℕ) × Cube all_roles zeros ones members × (evaluate_source_bit r members ≡ false))

pub bit-universe :
    (p n g zeros ones i : ℕ)
    → bit (bit_or (bit_or (bit_or (bit_or p n) g) zeros) ones) i
      ≡ ((((bit p i || bit n i) || bit g i) || bit zeros i) || bit ones i)
bit-universe p n g zeros ones i = ground (
  arith,
  bit-bit_or (bit_or (bit_or (bit_or p n) g) zeros) ones i,
  bit-bit_or (bit_or (bit_or p n) g) zeros i,
  bit-bit_or (bit_or p n) g i,
  bit-bit_or p n i,
)

module _ (r : BitPredicate) (all_roles zeros ones : ℕ)
    (inside : outside_universe r all_roles zeros ones ≡ false) where
  member_of_universe :
      (i : ℕ)
      → ((((bit r.p i || bit r.n i) || bit r.g i) || bit zeros i) || bit ones i) ≡ true
      → bit all_roles i ≡ true
  member_of_universe i h = of_covered _ all_roles i (ground arith) (bit-universe _ _ _ _ _ i ∙ h)

  pub Shared-of_inside : Shared r all_roles zeros ones
  Shared-of_inside = record {
    p_within = λ i h. member_of_universe i (ground arith);
    n_within = λ i h. member_of_universe i (ground arith);
    g_within = λ i h. member_of_universe i (ground arith);
    zeros_within = λ i h. member_of_universe i (ground arith);
    ones_within = λ i h. member_of_universe i (ground arith);
    apart = λ i h. of_miss zeros ones i (ground arith) h;
  }

  -- The ones with any free roles of `a` outside `b` make a membership that the constraints allow.
  Cube-subset :
      (a b : ℕ)
      → Cube all_roles zeros ones
          (bit_or ones (without (bit_and a (without all_roles (bit_or zeros ones))) b))
  Cube-subset a b = Cube-extend Shared-of_inside _ (subset_of_free Shared-of_inside a b)

  Cube-highest : Cube all_roles zeros ones (highest r (without all_roles (bit_or zeros ones)) ones)
  Cube-highest = elim (Bool-cases (truthy (bit_and r.p (without all_roles (bit_or zeros ones))))) [
    | inl e ↦ rw e (Cube-subset r.p 0)
    | inr e ↦ rw e (Cube-subset r.g r.n)
  ]

  pub constant_in-Constancy :
      (answer : Option Bool)
      → constant_in r (without all_roles (bit_or zeros ones)) ones ≡ answer
      → Constancy r all_roles zeros ones answer
  constant_in-Constancy (some v) h = λ members cube. evaluate-constant_in cube r v h
  constant_in-Constancy none h = (
    (
      highest r (without all_roles (bit_or zeros ones)) ones,
      Cube-highest,
      evaluate-highest r _ ones h,
    ),
    (
      lowest r (without all_roles (bit_or zeros ones)) ones,
      Cube-subset r.n r.p,
      evaluate-lowest r _ ones (λ e. cc),
    ),
  )

-- Whatever `constant_result` answers is exact. A Boolean is the source result of every membership
-- that holds none of the zeros and all of the ones; None means that one such membership has the
-- permission and another has not.
pub constant_result_exact :
    (r : BitPredicate) (all_roles zeros ones : ℕ) (answer : Option Bool)
    → constant_result r all_roles zeros ones ≡ ok answer
    → Constancy r all_roles zeros ones answer
unfolding constant_result
constant_result_exact r all_roles zeros ones answer h =
    constant_in-Constancy r all_roles zeros ones (ground arith) answer (ground arith)
