-- ===== src/Permission/Cubes.antt =====
-- `BitPredicate` (core/permissions.py): the source result over a cube of memberships, from its shared parts.
use discord_stoat_ferry.Prelude.{
  ℕ, ◌≡◌, Bool, true, false, not, ◌&&◌, ◌||◌, none, some, if◌then◌else◌, arith, ◌≢◌,
}
use discord_stoat_ferry.Bits.{
  bit, truthy, bit_and, bit_or, without, bit-bit_and, bit-bit_or, bit-without, hit, of_hit, of_miss,
  miss, of_escape, of_covered, without-zero,
}
use discord_stoat_ferry.Permission.Predicate.{BitPredicate, evaluate_source_bit, constant_in, Cube}

module _ {all_roles zeros ones members : ℕ} (cube : Cube all_roles zeros ones members) where
  -- A member is among the ones, or among the roles that the constraints leave free.
  free_or_present :
      (i : ℕ)
      → bit members i ≡ true
      → bit ones i ≡ false
      → bit (without all_roles (bit_or zeros ones)) i ≡ true
  free_or_present i p q = ground (
    arith,
    bit-without all_roles (bit_or zeros ones) i,
    bit-bit_or zeros ones i,
    cube.within i,
    cube.absent i,
  )

  hit_of_ones : (a : ℕ) → truthy (bit_and a ones) ≡ true → truthy (bit_and a members) ≡ true
  hit_of_ones a h = let (i, p, q) = of_hit a ones h in hit a members i p (cube.present i q)

  miss_of_free :
      (a : ℕ)
      → truthy (bit_and a ones) ≡ false
      → truthy (bit_and a (without all_roles (bit_or zeros ones))) ≡ false
      → truthy (bit_and a members) ≡ false
  miss_of_free a h k = miss a members λ i p. ground (
    arith,
    of_miss a ones i h p,
    of_miss a (without all_roles (bit_or zeros ones)) i k p,
    free_or_present i,
  )

  miss_of_kept :
      (a b : ℕ)
      → truthy (bit_and a ones) ≡ false
      → truthy (without (bit_and a (without all_roles (bit_or zeros ones))) b) ≡ false
      → truthy (bit_and b members) ≡ false
      → truthy (bit_and a members) ≡ false
  miss_of_kept a b h k l = miss a members λ i p. ground (
    arith,
    of_miss a ones i h p,
    free_or_present i,
    bit-bit_and a (without all_roles (bit_or zeros ones)) i,
    of_covered (bit_and a (without all_roles (bit_or zeros ones))) b i k,
    of_miss b members i l,
  )

  -- Every decided answer is the result of this membership.
  pub evaluate-constant_in :
      (r : BitPredicate) (answer : Bool)
      → constant_in r (without all_roles (bit_or zeros ones)) ones ≡ some answer
      → evaluate_source_bit r members ≡ answer
  unfolding constant_in evaluate_source_bit
  evaluate-constant_in r answer h = ground (
    arith,
    hit_of_ones r.p,
    hit_of_ones r.n,
    hit_of_ones r.g,
    miss_of_free r.p,
    miss_of_kept r.n r.p,
    miss_of_kept r.g r.n,
  )

-- The constraints are disjoint and lie in the universe, and so does the predicate.
pub record Shared (r : BitPredicate) (all_roles zeros ones : ℕ) : Type 0 where
  pub p_within : (i : ℕ) → bit r.p i ≡ true → bit all_roles i ≡ true
  pub n_within : (i : ℕ) → bit r.n i ≡ true → bit all_roles i ≡ true
  pub g_within : (i : ℕ) → bit r.g i ≡ true → bit all_roles i ≡ true
  pub zeros_within : (i : ℕ) → bit zeros i ≡ true → bit all_roles i ≡ true
  pub ones_within : (i : ℕ) → bit ones i ≡ true → bit all_roles i ≡ true
  pub apart : (i : ℕ) → bit zeros i ≡ true → bit ones i ≡ false

-- The ones together with some free roles: a membership that the constraints allow.
module _ {r : BitPredicate} {all_roles zeros ones : ℕ} (s : Shared r all_roles zeros ones) where
  pub Cube-extend :
      (extra : ℕ)
      → ((i : ℕ) → bit extra i ≡ true → bit (without all_roles (bit_or zeros ones)) i ≡ true)
      → Cube all_roles zeros ones (bit_or ones extra)
  Cube-extend extra free = record {
    within = λ i h. ground (
      arith,
      bit-bit_or ones extra i,
      s.ones_within i,
      free i,
      bit-without all_roles (bit_or zeros ones) i,
    );
    absent = λ i h. ground (
      arith,
      bit-bit_or ones extra i,
      s.apart i,
      free i,
      bit-without all_roles (bit_or zeros ones) i,
      bit-bit_or zeros ones i,
    );
    present = λ i h. ground (arith, bit-bit_or ones extra i);
  }

  pub subset_of_free :
      (a b i : ℕ)
      → bit (without (bit_and a (without all_roles (bit_or zeros ones))) b) i ≡ true
      → bit (without all_roles (bit_or zeros ones)) i ≡ true
  subset_of_free a b i h = ground (
    arith,
    bit-without (bit_and a (without all_roles (bit_or zeros ones))) b i,
    bit-bit_and a (without all_roles (bit_or zeros ones)) i,
  )

-- A role set made of the ones and of the roles of `a` that `unknown` leaves free and `b` does not hold.
module _ (a b unknown ones : ℕ) where
  bit-extend :
      (i : ℕ)
      → bit (bit_or ones (without (bit_and a unknown) b)) i
        ≡ (bit ones i || ((bit a i && bit unknown i) && not (bit b i)))
  bit-extend i = ground (
    arith,
    bit-bit_or ones (without (bit_and a unknown) b) i,
    bit-without (bit_and a unknown) b i,
    bit-bit_and a unknown i,
  )

  miss-extend :
      truthy (bit_and b ones) ≡ false
      → truthy (bit_and b (bit_or ones (without (bit_and a unknown) b))) ≡ false
  miss-extend h = miss b _ λ i p. ground (arith, bit-extend i, of_miss b ones i h p)

  hit-extend_ones :
      (d : ℕ)
      → truthy (bit_and d ones) ≡ true
      → truthy (bit_and d (bit_or ones (without (bit_and a unknown) b))) ≡ true
  hit-extend_ones d h =
      let (i, p, q) = of_hit d ones h in hit d _ i p (ground (arith, bit-extend i))

  hit-extend_free :
      truthy (without (bit_and a unknown) b) ≡ true
      → truthy (bit_and a (bit_or ones (without (bit_and a unknown) b))) ≡ true
  hit-extend_free h =
      let (i, p, q) = of_escape (bit_and a unknown) b h in
      hit a _ i (ground (arith, bit-bit_and a unknown i))
        (ground (arith, bit-extend i, bit-bit_and a unknown i))

  miss-extend_none :
      (d : ℕ)
      → truthy (without (bit_and a unknown) b) ≡ false
      → truthy (bit_and d ones) ≡ false
      → truthy (bit_and d (bit_or ones (without (bit_and a unknown) b))) ≡ false
  miss-extend_none d h k = miss d _ λ i p. ground (
    arith,
    bit-extend i,
    of_miss d ones i k p,
    bit-bit_and a unknown i,
    of_covered (bit_and a unknown) b i h,
  )

module _ (r : BitPredicate) (unknown ones : ℕ) where
  -- The free roles that are denied and not allowed: the source denies here if it ever does.
  abbrev pub lowest : ℕ
  lowest = bit_or ones (without (bit_and r.n unknown) r.p)

  pub evaluate-lowest :
      constant_in r unknown ones ≢ some true → evaluate_source_bit r lowest ≡ false
  unfolding constant_in evaluate_source_bit
  evaluate-lowest h = ground (
    arith,
    miss-extend r.n r.p unknown ones,
    hit-extend_ones r.n r.p unknown ones r.n,
    hit-extend_free r.n r.p unknown ones,
    miss-extend_none r.n r.p unknown ones r.g,
  )

  abbrev pub highest : ℕ
  highest =
      if truthy (bit_and r.p unknown)
      then bit_or ones (without (bit_and r.p unknown) 0)
      else bit_or ones (without (bit_and r.g unknown) r.n)

  pub evaluate-highest : constant_in r unknown ones ≡ none → evaluate_source_bit r highest ≡ true
  unfolding constant_in evaluate_source_bit
  evaluate-highest h = ground (
    arith,
    hit-extend_free r.p 0 unknown ones,
    without-zero (bit_and r.p unknown),
    miss-extend r.g r.n unknown ones,
    hit-extend_ones r.g r.n unknown ones r.g,
    hit-extend_free r.g r.n unknown ones,
  )
