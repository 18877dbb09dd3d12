-- ===== src/Permission/Conjunction/Deciding.antt =====
-- `_conjunction_possible` (core/permissions.py): what a search for a membership under conditions decides, term by term.
use discord_stoat_ferry.Prelude.{
  ℕ, ◌≡◌, ◌∙◌, ◌↔◌, refl, ap, Bool, true, false, ◌||◌, List, [], ◌∷◌, arith, if◌then◌else◌, inl,
  inr, Bool-cases, All,
}
use discord_stoat_ferry.Prelude.Result.{Result, ok}
use discord_stoat_ferry.Bits.{truthy, bit_and, bit_or, low_mask, bit-bit_or, of_hit, of_miss, hit}
use discord_stoat_ferry.Permission.Predicate.{PermissionError, evaluate_source_bit, Cube}
use discord_stoat_ferry.Permission.Synthesis.Meaning.{Describes}
use discord_stoat_ferry.Permission.Conjunction.{Condition, any_term}
use discord_stoat_ferry.Permission.Conjunction.Terms.{Fits, SomeFits}
use discord_stoat_ferry.Permission.Conjunction.Wellformed.{IsTerm}

-- Every condition has its wanted source result.
abbrev pub Holds : List Condition → ℕ → Type 0
Holds [] members = Unit
Holds ((r, wanted) ∷ conditions) members =
    (evaluate_source_bit r members ≡ wanted) × Holds conditions members

-- What an answer says of a set of memberships.
pub record Decides (n zeros ones : ℕ) (P : ℕ → Type 0) (answer : Result PermissionError Bool)
    : Type 0 where
  pub found : Bool
  pub answered : answer ≡ ok found
  pub occurs : found ≡ true → (members : ℕ) × Cube (low_mask n) zeros ones members × P members
  pub never : found ≡ false → (members : ℕ) → Cube (low_mask n) zeros ones members → P members → ⊥

module _ (n : ℕ) where
  Describes-term :
      (zeros ones absent present : ℕ)
      → Describes n zeros ones
      → Describes n absent present
      → truthy (bit_and zeros present) || truthy (bit_and ones absent) ≡ false
      → Describes n (bit_or zeros absent) (bit_or ones present)
  Describes-term zeros ones absent present d t h = record {
    zeros_within =
        λ i p. ground (arith, bit-bit_or zeros absent i, d.zeros_within i, t.zeros_within i);
    ones_within =
        λ i p. ground (arith, bit-bit_or ones present i, d.ones_within i, t.ones_within i);
    apart = λ i p. ground (
      arith,
      bit-bit_or zeros absent i,
      bit-bit_or ones present i,
      d.apart i,
      t.apart i,
      of_miss zeros present i,
      of_miss ones absent i,
    );
  }

  Cube-term_iff :
      (zeros ones absent present members : ℕ)
      → Cube (low_mask n) (bit_or zeros absent) (bit_or ones present) members
        ↔ (Cube (low_mask n) zeros ones members × Fits absent present members)
  Cube-term_iff zeros ones absent present members = (
    λ c. (
      record {
        within = c.within;
        absent = λ i p. c.absent i (ground (arith, bit-bit_or zeros absent i));
        present = λ i p. c.present i (ground (arith, bit-bit_or ones present i));
      },
      record {
        avoids = λ i p. c.absent i (ground (arith, bit-bit_or zeros absent i));
        covers = λ i p. c.present i (ground (arith, bit-bit_or ones present i));
      },
    ),
    λ h. record {
      within = h.0.within;
      absent = λ i p. ground (arith, bit-bit_or zeros absent i, h.0.absent i, h.1.avoids i);
      present = λ i p. ground (arith, bit-bit_or ones present i, h.0.present i, h.1.covers i);
    },
  )

  -- A cube and a term that clash have no membership in common.
  clash :
      (zeros ones absent present members : ℕ)
      → truthy (bit_and zeros present) || truthy (bit_and ones absent) ≡ true
      → Cube (low_mask n) zeros ones members
      → Fits absent present members
      → ⊥
  clash zeros ones absent present members h c f =
      elim (Bool-cases (truthy (bit_and zeros present))) [
        | inl e ↦ let (i, p, q) = of_hit zeros present e in cc (c.absent i p, f.covers i q)
        | inr e ↦
            let (i, p, q) = of_hit ones absent (ground arith) in cc (c.present i p, f.avoids i q)
      ]

  module _ (P : ℕ → Type 0) (possible : ℕ → ℕ → Result PermissionError Bool)
      (sub : (zeros ones : ℕ)
        → Describes n zeros ones
        → Decides n zeros ones P (possible zeros ones)) where
    any_term-clash :
        (absent present : ℕ) (terms : List (ℕ × ℕ)) (zeros ones : ℕ)
        → truthy (bit_and zeros present) || truthy (bit_and ones absent) ≡ true
        → any_term possible ((absent, present) ∷ terms) zeros ones
          ≡ any_term possible terms zeros ones
    unfolding any_term
    any_term-clash _ _ _ _ _ h = rw h

    any_term-free :
        (absent present : ℕ) (terms : List (ℕ × ℕ)) (zeros ones : ℕ) (found : Bool)
        → truthy (bit_and zeros present) || truthy (bit_and ones absent) ≡ false
        → possible (bit_or zeros absent) (bit_or ones present) ≡ ok found
        → any_term possible ((absent, present) ∷ terms) zeros ones
          ≡ (if found then ok true else any_term possible terms zeros ones)
    unfolding any_term
    any_term-free _ _ _ _ _ _ h e = rw (h, e)

    pub any_term-Decides :
        (terms : List (ℕ × ℕ)) (zeros ones : ℕ)
        → All (IsTerm n) terms
        → Describes n zeros ones
        → Decides n zeros ones
            (λ members. SomeFits terms members × P members)
            (any_term possible terms zeros ones)
    any_term-Decides [] _ _ ts d = record {
      found = false;
      answered = unfold any_term in refl;
      occurs = λ h. cc;
      never = λ h members c p. p.0;
    }
    any_term-Decides ((absent, present) ∷ terms) zeros ones (t, ts) d =
        let later = any_term-Decides terms zeros ones ts d in
        elim (Bool-cases (truthy (bit_and zeros present) || truthy (bit_and ones absent))) [
          | inl clashes ↦ rw (any_term-clash absent present terms zeros ones clashes) (record {
            found = later.found;
            answered = later.answered;
            occurs = λ h. let (m, c, q) = later.occurs h in (m, c, (inr q.0, q.1));
            never = λ h m c q. elim q.0 [
              | inl f ↦ clash zeros ones absent present m clashes c f
              | inr s ↦ later.never h m c (s, q.1)
            ];
          })
          | inr apart ↦
              let here =
                sub (bit_or zeros absent) (bit_or ones present)
                  (Describes-term zeros ones absent present d t apart) in
              let step =
                any_term-free absent present terms zeros ones here.found apart here.answered in
              elim (Bool-cases here.found) [
                | inl hit ↦ record {
                  found = true;
                  answered =
                      step
                      ∙ ap (λ b. if b then ok true else any_term possible terms zeros ones) hit;
                  occurs = λ _.
                      let (m, c, q) = here.occurs hit in
                      let (c', f) = (Cube-term_iff zeros ones absent present m).0 c in
                      (m, c', (inl f, q));
                  never = λ h. cc;
                }
                | inr missed ↦ record {
                  found = later.found;
                  answered =
                      step
                      ∙ ap (λ b. if b then ok true else any_term possible terms zeros ones) missed
                      ∙ later.answered;
                  occurs = λ h. let (m, c, q) = later.occurs h in (m, c, (inr q.0, q.1));
                  never = λ h m c q. elim q.0 [
                    | inl f ↦
                        here.never missed m ((Cube-term_iff zeros ones absent present m).1 (c, f))
                          q.1
                    | inr s ↦ later.never h m c (s, q.1)
                  ];
                }
              ]
        ]
