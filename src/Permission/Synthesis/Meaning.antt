-- ===== src/Permission/Synthesis/Meaning.antt =====
-- What a target server makes of overrides and a fixed fallback, and what a test of cubes promises.
use discord_stoat_ferry.Prelude.{
  arith, ◌<◌, ◌^◌, ◌==◌, inl, inr, Bool-cases, ℕ, zero, suc, ◌≡◌, Bool, true, false, ◌||◌, Option,
  none, some, List, length, get_or, if◌then◌else◌,
}
use discord_stoat_ferry.Prelude.Result.{ok}
use discord_stoat_ferry.Bits.{
  bit, truthy, bit_and, bit_or, low_mask, bit-bit_or, bit-pow, bit-zero, bit-low_mask, of_miss,
}
use discord_stoat_ferry.Permission.Predicate.{Cube}
use discord_stoat_ferry.Permission.Synthesis.{Test}

-- The explicit override of the highest assigned role below `index` that is not neutral.
unfoldable pub override : List (Option Bool) → ℕ → ℕ → Option Bool
override operations zero members = none
override operations (suc index) members = elim (get_or operations index none) [
  | none ↦ override operations index members
  | some value ↦ if bit members index then some value else override operations index members
]

abbrev pub or_fallback : Option Bool → Bool → Bool
or_fallback none fallback = fallback
or_fallback (some value) fallback = value

-- An explicit override wins; else the base, or a grant of an assigned role.
unfoldable pub target_result : List (Option Bool) → ℕ → Bool → ℕ → Bool
target_result operations grants base members =
    or_fallback (override operations (length operations) members)
      (base || truthy (bit_and grants members))

-- The membership lies among the first `n` roles and holds none of `zeros`.
pub record Among (n zeros members : ℕ) : Type 0 where
  pub within : (i : ℕ) → bit members i ≡ true → bit (low_mask n) i ≡ true
  pub absent : (i : ℕ) → bit zeros i ≡ true → bit members i ≡ false

-- A test that passes on a cube is right for each of its memberships to which `f` applies.
pub record IsSound (n : ℕ) (applies f : ℕ → Bool) (agrees : Test) : Type 0 where
  pub right :
      (zeros ones : ℕ) (wanted : Bool)
      → agrees zeros ones wanted ≡ ok true
      → (members : ℕ) → Cube (low_mask n) zeros ones members
      → applies members ≡ true
      → f members ≡ wanted

-- Masks that describe a cube: within the first `n` roles, and disjoint.
pub record Describes (n zeros ones : ℕ) : Type 0 where
  pub zeros_within : (i : ℕ) → bit zeros i ≡ true → bit (low_mask n) i ≡ true
  pub ones_within : (i : ℕ) → bit ones i ≡ true → bit (low_mask n) i ≡ true
  pub apart : (i : ℕ) → bit zeros i ≡ true → bit ones i ≡ false

-- A test that never raises on a cube, and passes exactly if `f` has the wanted value throughout.
pub record IsExact (n : ℕ) (f : ℕ → Bool) (agrees : Test) : Type 0 where
  pub right :
      (zeros ones : ℕ) (wanted : Bool)
      → agrees zeros ones wanted ≡ ok true
      → (members : ℕ) → Cube (low_mask n) zeros ones members
      → f members ≡ wanted
  pub answers :
      (zeros ones : ℕ) (wanted : Bool)
      → Describes n zeros ones
      → (passed : Bool) × (agrees zeros ones wanted ≡ ok passed)
  pub complete :
      (zeros ones : ℕ) (wanted : Bool)
      → Describes n zeros ones
      → ((members : ℕ) → Cube (low_mask n) zeros ones members → f members ≡ wanted)
      → agrees zeros ones wanted ≡ ok true

pub override_unassigned :
    (operations : List (Option Bool)) (index members : ℕ)
    → bit members index ≡ false
    → override operations (suc index) members ≡ override operations index members
unfolding override
override_unassigned operations index members h = ground arith

module _ {n : ℕ} where
  pub Cube-one :
      {zeros members : ℕ} (k : ℕ)
      → Among n zeros members
      → bit members k ≡ true
      → Cube (low_mask n) zeros (2 ^ k) members
  Cube-one {members} k a h = record {
    within = a.within;
    absent = a.absent;
    present = λ i p. let e : k ≡ i = ground (arith, bit-pow k i) in rw (← e) h;
  }

  pub Among-more :
      {zeros members : ℕ} (k : ℕ)
      → Among n zeros members
      → bit members k ≡ false
      → Among n (bit_or zeros (2 ^ k)) members
  Among-more {zeros} {members} k a h = record {
    within = a.within;
    absent = λ i p. elim (Bool-cases (k == i)) [
      | inl e ↦ let same : k ≡ i = ground arith in rw (← same) h
      | inr e ↦ a.absent i (ground (arith, bit-bit_or zeros (2 ^ k) i, bit-pow k i))
    ];
  }

  pub Among-union :
      {zeros members : ℕ} (grants : ℕ)
      → Among n zeros members
      → truthy (bit_and grants members) ≡ false
      → Among n (bit_or zeros grants) members
  Among-union {zeros} {members} grants a h = record {
    within = a.within;
    absent =
        λ i p. ground (arith, bit-bit_or zeros grants i, a.absent i, of_miss grants members i h);
  }

  pub Among-all : {members : ℕ} → ((i : ℕ) → bit members i ≡ true → i < n) → Among n 0 members
  Among-all below = record {
    within = λ i p. ground (arith, bit-low_mask n i, below i p);
    absent = λ i p. cc (bit-zero i);
  }

  pub Cube-none : {zeros members : ℕ} → Among n zeros members → Cube (low_mask n) zeros 0 members
  Cube-none a = record { within = a.within; absent = a.absent; present = λ i p. cc (bit-zero i) }

pub Cube-ones :
    {n : ℕ} (zeros ones : ℕ) → Describes n zeros ones → Cube (low_mask n) zeros ones ones
Cube-ones _ _ d = record { within = d.ones_within; absent = λ i p. d.apart i p; present = λ i p. p }
