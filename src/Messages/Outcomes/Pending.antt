-- ===== src/Messages/Outcomes/Pending.antt =====
-- migrator/messages.py: the pending sources of `DeliveryOutcomes` as a dict, and how many they are.
use discord_stoat_ferry.Prelude.{
  ℕ, ◌+◌, ◌≡◌, refl, sym, ap, ◌∙◌, Bool, true, false, ◌||◌, Option, none, some, [], ◌∷◌, arith,
  eq_iff, Bool-cases, inl, inr,
}
use discord_stoat_ferry.Delivery.Safety.Writing.{same_ref_lem}
use discord_stoat_ferry.Messages.Outcomes.{
  Source, delivery, message, Category, partly, unsettled, same_source, Pending, find, pop, put,
  is_partly,
}

pub same_source_lem : (a b : Source) → same_source a b ≡ true → a ≡ b
unfolding same_source
same_source_lem (delivery a) (delivery b) h = ap delivery (same_ref_lem a b h)
same_source_lem (message a b) (message c d) h =
    let first = (eq_iff a c).0 (ground arith) in let second = (eq_iff b d).0 (ground arith) in cc
same_source_lem (delivery a) (message c d) h = cc
same_source_lem (message a b) (delivery c) h = cc

-- How many pending sources are partly, or not, delivered.
abbrev pub one_if : Bool → ℕ
one_if true = 1
one_if false = 0

abbrev pub partials : Pending → ℕ
partials [] = 0
partials ((key, category) ∷ pending) = one_if (is_partly category) + partials pending

abbrev pub holds : Pending → Source → Bool
holds [] key = false
holds ((other, category) ∷ pending) key = same_source other key || holds pending key

-- No source is pending twice.
abbrev pub Unique : Pending → Type 0
Unique [] = Unit {0}
Unique ((key, category) ∷ pending) = (holds pending key ≡ false) × Unique pending

abbrev pub unsettleds : Pending → ℕ
unsettleds [] = 0
unsettleds ((key, partly) ∷ pending) = unsettleds pending
unsettleds ((key, unsettled) ∷ pending) = 1 + unsettleds pending

abbrev pub partly_of : Option Category → ℕ
partly_of none = 0
partly_of (some partly) = 1
partly_of (some unsettled) = 0

abbrev pub unsettled_of : Option Category → ℕ
unsettled_of none = 0
unsettled_of (some partly) = 0
unsettled_of (some unsettled) = 1

module _ (key : Source) where
  pub partials-pop :
      (pending : Pending)
      → partials (pop pending key) + partly_of (find pending key) ≡ partials pending
  unfolding pop find
  partials-pop [] = omega arith
  partials-pop ((other, partly) ∷ pending) = ground (arith, partials-pop pending)
  partials-pop ((other, unsettled) ∷ pending) = ground (arith, partials-pop pending)

  pub unsettleds-pop :
      (pending : Pending)
      → unsettleds (pop pending key) + unsettled_of (find pending key) ≡ unsettleds pending
  unfolding pop find
  unsettleds-pop [] = omega arith
  unsettleds-pop ((other, partly) ∷ pending) = ground (arith, unsettleds-pop pending)
  unsettleds-pop ((other, unsettled) ∷ pending) = ground (arith, unsettleds-pop pending)

  pub holds-pop :
      (other : Source) (pending : Pending)
      → holds pending other ≡ false
      → holds (pop pending key) other ≡ false
  unfolding pop
  holds-pop other [] h = refl
  holds-pop other ((first, category) ∷ pending) h = ground (arith, holds-pop other pending)

  pub pop-Unique : (pending : Pending) → Unique pending → Unique (pop pending key)
  unfolding pop
  pop-Unique [] u = tt
  pop-Unique ((other, category) ∷ pending) u = elim (Bool-cases (same_source other key)) [
    | inl same ↦ rw same u.1
    | inr differs ↦ rw differs (holds-pop other pending u.0, pop-Unique pending u.1)
  ]

  pub holds-pop_same : (pending : Pending) → Unique pending → holds (pop pending key) key ≡ false
  unfolding pop
  holds-pop_same [] u = refl
  holds-pop_same ((other, category) ∷ pending) u = elim (Bool-cases (same_source other key)) [
    | inl same ↦ rw same (ap (holds pending) (sym (same_source_lem other key same)) ∙ u.0)
    | inr differs ↦ rw (differs, differs) (holds-pop_same pending u.1)
  ]

  module _ (category : Category) where
    pub partials-put :
        (pending : Pending)
        → holds pending key ≡ false
        → partials (put pending key category) ≡ one_if (is_partly category) + partials pending
    unfolding put
    partials-put [] h = omega arith
    partials-put ((other, old) ∷ pending) h = ground (arith, partials-put pending)

    pub unsettleds-put :
        (pending : Pending)
        → holds pending key ≡ false
        → unsettleds (put pending key category) ≡ unsettled_of (some category) + unsettleds pending
    unfolding put
    unsettleds-put [] h = last category
      where
        last : (c : Category) → unsettleds ((key, c) ∷ []) ≡ unsettled_of (some c) + 0
        last partly = omega arith
        last unsettled = omega arith
    unsettleds-put ((other, partly) ∷ pending) h = ground (arith, unsettleds-put pending)
    unsettleds-put ((other, unsettled) ∷ pending) h = ground (arith, unsettleds-put pending)

    holds-put :
        (other : Source) (pending : Pending)
        → holds pending other ≡ false
        → same_source key other ≡ false
        → holds (put pending key category) other ≡ false
    unfolding put
    holds-put other [] h differs = ground arith
    holds-put other ((first, old) ∷ pending) h differs = ground (arith, holds-put other pending)

    pub put-Unique :
        (pending : Pending)
        → holds pending key ≡ false
        → Unique pending
        → Unique (put pending key category)
    unfolding put
    put-Unique [] h u = (refl, tt)
    put-Unique ((other, old) ∷ pending) h u =
        let differs : same_source other key ≡ false = ground arith in
        let around : same_source key other ≡ false = elim (Bool-cases (same_source key other)) [
          | inl same ↦ cc (same_source_lem key other same)
          | inr right ↦ right
        ] in
        rw differs (holds-put other pending u.0 around, put-Unique pending (ground arith) u.1)
