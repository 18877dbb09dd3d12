-- ===== src/Permission/Synthesis/Exact.antt =====
-- The synthesis and the check asked by `constant_result`, exactly.
use discord_stoat_ferry.Prelude.{
  ◌↔◌, ℕ, ◌<◌, ◌≡◌, refl, Bool, true, false, Option, none, some, List, length, arith,
}
use discord_stoat_ferry.Prelude.Result.{ok}
use discord_stoat_ferry.Bits.{bit, bit_or, without, low_mask, bit-low_mask, miss, covered}
use discord_stoat_ferry.Permission.Predicate.{
  BitPredicate, evaluate_source_bit, constant_result, constant_in, outside_universe, Cube,
}
use discord_stoat_ferry.Permission.Constant.{Constancy, constant_result_exact, bit-universe}
use discord_stoat_ferry.Permission.Synthesis.Soundness.{
  IsSound-constant_result, target_result-encoding_matches,
}
use discord_stoat_ferry.Permission.Synthesis.{encoding_matches, is_wanted, is_bool, synthesize_bit}
use discord_stoat_ferry.Permission.Synthesis.Meaning.{Cube-ones, target_result, IsExact, Describes}
use discord_stoat_ferry.Permission.Synthesis.Completeness.{encoding_matches_complete}
use discord_stoat_ferry.Permission.Synthesis.Search.{synthesize_bit_finds}

-- A predicate over the first `n` roles.
pub record IsOver (n : ℕ) (r : BitPredicate) : Type 0 where
  pub p_below : (i : ℕ) → bit r.p i ≡ true → i < n
  pub n_below : (i : ℕ) → bit r.n i ≡ true → i < n
  pub g_below : (i : ℕ) → bit r.g i ≡ true → i < n

module _ {n : ℕ} {r : BitPredicate} (over : IsOver n r) where
  inside_of_Describes :
      (zeros ones : ℕ) → Describes n zeros ones → outside_universe r (low_mask n) zeros ones ≡ false
  inside_of_Describes zeros ones d = ground (
    arith,
    covered (bit_or (bit_or (bit_or (bit_or r.p r.n) r.g) zeros) ones) (low_mask n) (λ i p. ground (
      arith,
      bit-universe r.p r.n r.g zeros ones i,
      bit-low_mask n i,
      over.p_below i,
      over.n_below i,
      over.g_below i,
      d.zeros_within i,
      d.ones_within i,
    )),
    miss zeros ones d.apart,
  )

  pub constant_result_answers :
      (zeros ones : ℕ)
      → Describes n zeros ones
      → constant_result r (low_mask n) zeros ones
        ≡ ok (constant_in r (without (low_mask n) (bit_or zeros ones)) ones)
  unfolding constant_result
  constant_result_answers zeros ones d = rw (inside_of_Describes zeros ones d)

  -- If the source result is constant on a cube, `constant_result` knows it.
  constant_result_knows :
      (zeros ones : ℕ) (wanted : Bool) (answer : Option Bool)
      → Describes n zeros ones
      → Constancy r (low_mask n) zeros ones answer
      → ((members : ℕ)
          → Cube (low_mask n) zeros ones members
          → evaluate_source_bit r members ≡ wanted)
      → is_bool answer wanted ≡ true
  constant_result_knows _ _ wanted none d ((m₁, c₁, e₁), (m₀, c₀, e₀)) h =
      ground (arith, h m₁ c₁, h m₀ c₀)
  constant_result_knows zeros ones wanted (some v) d k h =
      ground (arith, k ones (Cube-ones zeros ones d), h ones (Cube-ones zeros ones d))

  IsExact-constant_result :
      IsExact n (evaluate_source_bit r) (is_wanted (constant_result r (low_mask n)))
  IsExact-constant_result = record {
    right = λ zeros ones wanted e members cube.
        (IsSound-constant_result n r).right zeros ones wanted e members cube refl;
    answers = λ zeros ones wanted d. (
      is_bool (constant_in r (without (low_mask n) (bit_or zeros ones)) ones) wanted,
      rw (constant_result_answers zeros ones d),
    );
    complete = λ zeros ones wanted d h.
        let answered = constant_result_answers zeros ones d in
        rw (
          answered,
          constant_result_knows zeros ones wanted _ d
              (constant_result_exact r (low_mask n) zeros ones _ answered) h,
        );
  }

-- Where some overrides for the `n` roles give every membership the source result, over the given
-- grants and base, `synthesize_bit` returns overrides. It raises nothing there.
pub synthesize_bit_complete :
    (n : ℕ) (r : BitPredicate) (grants : ℕ) (base : Bool) (operations : List (Option Bool))
    → IsOver n r
    → ((i : ℕ) → bit grants i ≡ true → i < n)
    → length operations ≡ n
    → ((members : ℕ)
        → ((i : ℕ) → bit members i ≡ true → i < n)
        → target_result operations grants base members ≡ evaluate_source_bit r members)
    → (found : List (Option Bool)) × (synthesize_bit n (constant_result r (low_mask n)) grants base
        ≡ ok (some found))
synthesize_bit_complete n r grants base operations over gw size same =
    synthesize_bit_finds (constant_result r (low_mask n)) (IsExact-constant_result over) operations
      grants base size gw same

-- `_encoding_matches`, asked by `constant_result`, accepts overrides for the `n` roles exactly when
-- they give every membership the source result, over the given grants and base.
pub encoding_matches_iff :
    (n : ℕ) (r : BitPredicate) (grants : ℕ) (base : Bool) (operations : List (Option Bool))
    → IsOver n r
    → ((i : ℕ) → bit grants i ≡ true → i < n)
    → length operations ≡ n
    → (encoding_matches operations (is_wanted (constant_result r (low_mask n))) grants base
        ≡ ok true)
      ↔ ((members : ℕ)
          → ((i : ℕ) → bit members i ≡ true → i < n)
          → target_result operations grants base members ≡ evaluate_source_bit r members)
encoding_matches_iff n r grants base operations over gw size = (
  λ e members below.
      target_result-encoding_matches (IsSound-constant_result n r) operations grants base members
        size e below refl,
  encoding_matches_complete (IsExact-constant_result over) operations grants base size gw,
)
