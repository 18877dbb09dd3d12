-- ===== src/Permission/Conjunction/Terms.antt =====
-- The terms of `_predicate_terms` cover exactly the memberships with the wanted source result.
use discord_stoat_ferry.Prelude.{
  ℕ, zero, suc, ◌≤◌, ◌≡◌, ◌∙◌, ◌↔◌, refl, sym, Bool, true, false, ◌||◌, List, [], ◌∷◌, ◌++◌, arith,
  if◌then◌else◌, ◌==◌, ◌⊎◌, inl, inr, Bool-cases,
}
use discord_stoat_ferry.Bits.{
  bit, truthy, bit_and, bit_or, bit_xor, without, bit-bit_or, bit-without, bit-zero, of_hit, miss,
  of_miss, hit, truthy_of_bit,
}
use discord_stoat_ferry.Bits.Lowest.{lowest, lowest_place, bit-remove, remove-lt}
use discord_stoat_ferry.Permission.Predicate.{BitPredicate, evaluate_source_bit}
use discord_stoat_ferry.Permission.Conjunction.{role_terms, predicate_terms}

-- The membership holds none of `absent` and all of `present`.
pub record Fits (absent present members : ℕ) : Type 0 where
  pub avoids : (i : ℕ) → bit absent i ≡ true → bit members i ≡ false
  pub covers : (i : ℕ) → bit present i ≡ true → bit members i ≡ true

abbrev pub SomeFits : List (ℕ × ℕ) → ℕ → Type 0
SomeFits [] members = ⊥
SomeFits ((absent, present) ∷ terms) members = Fits absent present members ⊎ SomeFits terms members

SomeFits-append :
    (xs ys : List (ℕ × ℕ)) (members : ℕ)
    → SomeFits (xs ++ ys) members ↔ (SomeFits xs members ⊎ SomeFits ys members)
SomeFits-append [] ys members = (inr, λ h. elim h [ inl x ↦ absurd x | inr y ↦ y ])
SomeFits-append (x ∷ xs) ys members =
    let ih = SomeFits-append xs ys members in
    (
      λ h. elim h [
        | inl f ↦ inl (inl f)
        | inr r ↦ elim (ih.0 r) [ inl a ↦ inl (inr a) | inr b ↦ inr b ]
      ],
      λ h. elim h [
        | inl a ↦ elim a [ inl f ↦ inl f | inr r ↦ inr (ih.1 (inl r)) ]
        | inr b ↦ inr (ih.1 (inr b))
      ],
    )

pub role_terms-more :
    (fuel absent candidates : ℕ)
    → truthy candidates ≡ true
    → role_terms (suc fuel) absent candidates
      ≡ (absent, lowest candidates)
        ∷ role_terms fuel absent (bit_xor candidates (lowest candidates))
unfolding role_terms
role_terms-more fuel absent candidates h = ground arith

pub role_terms-done :
    (fuel absent candidates : ℕ)
    → truthy candidates ≡ false
    → role_terms fuel absent candidates ≡ []
unfolding role_terms
role_terms-done zero absent candidates h = refl
role_terms-done (suc fuel) absent candidates h = ground arith

miss_of_Fits :
    {absent present members : ℕ}
    → Fits absent present members
    → truthy (bit_and absent members) ≡ false
miss_of_Fits {absent} {members} f = miss absent members f.avoids

hit_of_lowest :
    (candidates absent members : ℕ)
    → truthy candidates ≡ true
    → Fits absent (lowest candidates) members
    → truthy (bit_and candidates members) ≡ true
hit_of_lowest candidates absent members h f =
    let (k, held, alone) = lowest_place candidates h in
    hit candidates members k held (f.covers k (ground (arith, alone k)))

hit_of_rest :
    (candidates members : ℕ)
    → truthy candidates ≡ true
    → truthy (bit_and (bit_xor candidates (lowest candidates)) members) ≡ true
    → truthy (bit_and candidates members) ≡ true
hit_of_rest candidates members h r =
    let (k, held, alone) = lowest_place candidates h in
    let (i, p, q) = of_hit (bit_xor candidates (lowest candidates)) members r in
    hit candidates members i (ground (arith, bit-remove candidates k i alone held)) q

role_terms_sound :
    (fuel absent candidates members : ℕ)
    → SomeFits (role_terms fuel absent candidates) members
    → (truthy (bit_and absent members) ≡ false) × (truthy (bit_and candidates members) ≡ true)
role_terms_sound zero absent candidates members h = absurd (unfold role_terms in h)
role_terms_sound (suc fuel) absent candidates members h = elim (Bool-cases (truthy candidates)) [
  | inl more ↦ elim (rw (role_terms-more fuel absent candidates more) at h) [
    | inl f ↦ (miss_of_Fits f, hit_of_lowest candidates absent members more f)
    | inr r ↦
        let (p, q) =
          role_terms_sound fuel absent (bit_xor candidates (lowest candidates)) members r in
        (p, hit_of_rest candidates members more q)
  ]
  | inr done ↦ absurd (rw (role_terms-done (suc fuel) absent candidates done) at h)
]

role_terms_complete :
    (fuel absent candidates members : ℕ)
    → candidates ≤ fuel
    → truthy (bit_and absent members) ≡ false
    → (i : ℕ) → bit candidates i ≡ true
    → bit members i ≡ true
    → SomeFits (role_terms fuel absent candidates) members
role_terms_complete zero absent candidates members h p i q m =
    absurd (ground (arith, truthy_of_bit candidates i q))
role_terms_complete (suc fuel) absent candidates members h p i q m =
    let more = truthy_of_bit candidates i q in
    let (k, held, alone) = lowest_place candidates more in
    rw (role_terms-more fuel absent candidates more) (elim (Bool-cases (k == i)) [
      | inl same ↦ inl (record {
        avoids = λ j r. of_miss absent members j p r;
        covers = λ j r.
            let at : k ≡ i = ground arith in
            let there : k ≡ j = ground (arith, alone j) in rw (sym there ∙ at) m;
      })
      | inr other ↦ inr (
          role_terms_complete fuel absent (bit_xor candidates (lowest candidates)) members
            (omega (arith, remove-lt candidates more)) p i
            (ground (arith, bit-remove candidates k i alone held)) m)
    ])

hit_of_without :
    (a b members : ℕ)
    → truthy (bit_and (without a b) members) ≡ true
    → truthy (bit_and a members) ≡ true
hit_of_without a b members h =
    let (i, p, q) = of_hit (without a b) members h in
    hit a members i (ground (arith, bit-without a b i)) q

without_of_hit :
    (a b members : ℕ)
    → truthy (bit_and b members) ≡ false
    → truthy (bit_and a members) ≡ true
    → truthy (bit_and (without a b) members) ≡ true
without_of_hit a b members m h =
    let (i, p, q) = of_hit a members h in
    hit (without a b) members i
      (ground (arith, bit-without a b i, Bool-cases (bit b i), of_miss b members i m)) q

miss_of_union :
    (a b members : ℕ)
    → truthy (bit_and (bit_or a b) members) ≡ false
    → (truthy (bit_and a members) ≡ false) × (truthy (bit_and b members) ≡ false)
miss_of_union a b members h = (
  miss a members (λ i p. of_miss (bit_or a b) members i h (ground (arith, bit-bit_or a b i))),
  miss b members (λ i p. of_miss (bit_or a b) members i h (ground (arith, bit-bit_or a b i))),
)

union_of_miss :
    (a b members : ℕ)
    → truthy (bit_and a members) ≡ false
    → truthy (bit_and b members) ≡ false
    → truthy (bit_and (bit_or a b) members) ≡ false
union_of_miss a b members h k =
    miss (bit_or a b) members
      λ i p. ground (arith, bit-bit_or a b i, of_miss a members i h, of_miss b members i k)

module _ (members : ℕ) where
  single_iff :
      (absent : ℕ) → SomeFits ((absent, 0) ∷ []) members ↔ (truthy (bit_and absent members) ≡ false)
  single_iff absent = (
    λ h. elim h [ inl f ↦ miss_of_Fits f | inr x ↦ absurd x ],
    λ h.
        inl (record {
          avoids = λ i p. of_miss absent members i h p;
          covers = λ i p. cc (bit-zero i);
        }),
  )

  roles_iff :
      (absent candidates : ℕ)
      → SomeFits (role_terms candidates absent candidates) members
        ↔ ((truthy (bit_and absent members) ≡ false) × (truthy (bit_and candidates members) ≡ true))
  roles_iff absent candidates = (
    role_terms_sound candidates absent candidates members,
    λ h.
        let (i, p, q) = of_hit candidates members h.1 in
        role_terms_complete candidates absent candidates members (omega arith) h.0 i p q,
  )

  -- The second part of each list of terms, whatever the predicate's constant.
  grants_iff :
      (c : Bool) (n g : ℕ)
      → SomeFits (if c then (n, 0) ∷ [] else role_terms g n g) members
        ↔ ((truthy (bit_and n members) ≡ false) × (c || truthy (bit_and g members) ≡ true))
  grants_iff true n g = (λ h. ((single_iff n).0 h, refl), λ h. (single_iff n).1 h.0)
  grants_iff false n g = roles_iff n g

  denies_iff :
      (c : Bool) (absent : ℕ)
      → SomeFits (if c then [] else (absent, 0) ∷ []) members
        ↔ ((c ≡ false) × (truthy (bit_and absent members) ≡ false))
  denies_iff true absent = (λ h. absurd h, λ h. ground arith)
  denies_iff false absent = (λ h. (refl, (single_iff absent).0 h), λ h. (single_iff absent).1 h.1)

miss_zero : (members : ℕ) → truthy (bit_and 0 members) ≡ false
miss_zero members = miss 0 members λ i p. cc (bit-zero i)

module _ (r : BitPredicate) (members : ℕ) where
  allowing_iff : SomeFits (predicate_terms r true) members ↔ (evaluate_source_bit r members ≡ true)
  unfolding predicate_terms evaluate_source_bit
  allowing_iff = (
    λ h. elim ((SomeFits-append _ _ members).0 h) [
      | inl a ↦ ground (arith, (roles_iff members 0 r.p).0 a)
      | inr b ↦
          let (p, q) = (grants_iff members r.c r.n (without r.g r.n)).0 b in
          ground (arith, p, q, hit_of_without r.g r.n members)
    ],
    λ h. (SomeFits-append _ _ members).1 (elim (Bool-cases (truthy (bit_and r.p members))) [
      | inl allowed ↦ inl ((roles_iff members 0 r.p).1 (miss_zero members, allowed))
      | inr other ↦ inr (
          (grants_iff members r.c r.n (without r.g r.n)).1
            (ground arith, ground (arith, without_of_hit r.g r.n members)))
    ]),
  )

  denying_iff : SomeFits (predicate_terms r false) members ↔ (evaluate_source_bit r members ≡ false)
  unfolding predicate_terms evaluate_source_bit
  denying_iff = (
    λ h. elim ((SomeFits-append _ _ members).0 h) [
      | inl a ↦
          let (p, q) = (roles_iff members r.p (without r.n r.p)).0 a in
          ground (arith, p, q, hit_of_without r.n r.p members)
      | inr b ↦
          let (p, q) = (denies_iff members r.c (bit_or r.p r.g)).0 b in
          ground (arith, p, miss_of_union r.p r.g members q)
    ],
    λ h. (SomeFits-append _ _ members).1 (elim (Bool-cases (truthy (bit_and r.n members))) [
      | inl denied ↦ inl (
          (roles_iff members r.p (without r.n r.p)).1
            (ground arith, ground (arith, without_of_hit r.n r.p members)))
      | inr other ↦ inr (
          (denies_iff members r.c (bit_or r.p r.g)).1
            (ground arith, ground (arith, union_of_miss r.p r.g members)))
    ]),
  )

-- The terms of a wanted result fit a membership exactly if the source result is the wanted one.
pub SomeFits-predicate_terms_iff :
    (r : BitPredicate) (wanted : Bool) (members : ℕ)
    → SomeFits (predicate_terms r wanted) members ↔ (evaluate_source_bit r members ≡ wanted)
SomeFits-predicate_terms_iff r true members = allowing_iff r members
SomeFits-predicate_terms_iff r false members = denying_iff r members
