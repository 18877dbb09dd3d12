-- ===== src/Permission/Synthesis/Reaching.antt =====
-- How far the downward loops have come: which roles stay out of the memberships that are left.
use discord_stoat_ferry.Prelude.{
  ℕ, suc, ◌^◌, ◌≤◌, ◌<◌, ◌≡◌, ◌∙◌, refl, Bool, true, Option, none, some, List, get_or, arith,
}
use discord_stoat_ferry.Bits.{bit, bit_or, low_mask, bit-bit_or, bit-pow, bit-zero, bit-low_mask}
use discord_stoat_ferry.Permission.Predicate.{Cube}
use discord_stoat_ferry.Permission.Synthesis.Meaning.{
  override, Among, Describes, override_unassigned,
}

-- Before the index is visited, every higher role that is not neutral is among the zeros.
pub record Reaches (n : ℕ) (operations : List (Option Bool)) (index zeros : ℕ) : Type 0 where
  pub zeros_within : (i : ℕ) → bit zeros i ≡ true → i < n
  pub zeros_above : (i : ℕ) → bit zeros i ≡ true → index ≤ i
  pub undecided :
      (members : ℕ)
      → Among n zeros members
      → override operations n members ≡ override operations index members

module _ {n : ℕ} {operations : List (Option Bool)} where
  pub Reaches-start : Reaches n operations n 0
  Reaches-start = record {
    zeros_within = λ i p. cc (bit-zero i);
    zeros_above = λ i p. cc (bit-zero i);
    undecided = λ members a. refl;
  }

  pub Reaches-zeros :
      {index zeros : ℕ}
      → index < n
      → Reaches n operations (suc index) zeros
      → Reaches n operations index (bit_or zeros (2 ^ index))
  Reaches-zeros {index} {zeros} h r = record {
    zeros_within =
        λ i p. ground (arith, bit-bit_or zeros (2 ^ index) i, bit-pow index i, r.zeros_within i);
    zeros_above =
        λ i p. ground (arith, bit-bit_or zeros (2 ^ index) i, bit-pow index i, r.zeros_above i);
    undecided = λ members a.
        r.undecided members (record {
          within = a.within;
          absent = λ i p. a.absent i (ground (arith, bit-bit_or zeros (2 ^ index) i));
        })
        ∙ override_unassigned operations index members (
            a.absent index
              (ground (arith, bit-bit_or zeros (2 ^ index) index, bit-pow index index)));
  }

  pub Reaches-neutral :
      {index zeros : ℕ}
      → get_or operations index none ≡ none
      → Reaches n operations (suc index) zeros
      → Reaches n operations index zeros
  unfolding override
  Reaches-neutral {index} h r = record {
    zeros_within = r.zeros_within;
    zeros_above = λ i p. ground (arith, r.zeros_above i p);
    undecided = λ members a. ground (arith, r.undecided members a);
  }

  pub Describes-one :
      {index zeros : ℕ}
      → index < n
      → Reaches n operations (suc index) zeros
      → Describes n zeros (2 ^ index)
  Describes-one {index} h r = record {
    zeros_within = λ i p. ground (arith, bit-low_mask n i, r.zeros_within i p);
    ones_within = λ i p. ground (arith, bit-low_mask n i, bit-pow index i);
    apart = λ i p. ground (arith, bit-pow index i, r.zeros_above i p);
  }

  -- On the cube of an explicit override the target result is that override.
  pub override_of_explicit :
      {index zeros : ℕ} (v : Bool)
      → get_or operations index none ≡ some v
      → Reaches n operations (suc index) zeros
      → (members : ℕ) → Cube (low_mask n) zeros (2 ^ index) members
      → override operations n members ≡ some v
  unfolding override
  override_of_explicit {index} v h r members cube = ground (
    arith,
    r.undecided members (record { within = cube.within; absent = cube.absent }),
    cube.present index (ground (arith, bit-pow index index)),
  )
