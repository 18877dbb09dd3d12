-- ===== src/Delivery/Safety/Attempts.antt =====
-- The attempts of a receipt's parts grow with every update that `deliver_part` makes of them.
use discord_stoat_ferry.Prelude.{
  ℕ, zero, suc, ◌≤◌, ◌≡◌, refl, sym, subst, String, Bool, true, false, Option, some, List, [], ◌∷◌,
  map, get_elem?, set, arith, Bool-cases, Option-cases, inl, inr,
}
use mathlib.Core.Option.{some-injective}
use discord_stoat_ferry.Prelude.Result.{Result-cases}
use discord_stoat_ferry.Prelude.Json.{Value}
use discord_stoat_ferry.Prelude.Dict
use discord_stoat_ferry.Prelude.Dict.{Dict}
use discord_stoat_ferry.Delivery.Receipt.{DeliveryPart, acknowledged}
use discord_stoat_ferry.Delivery.Keys.{Setup, new_part}
use discord_stoat_ferry.Delivery.Parts.{with_status, record_media}
use discord_stoat_ferry.Delivery.History.{history_media}
use discord_stoat_ferry.Delivery.Legacy.{id_of}
use discord_stoat_ferry.Delivery.Deliver.{is_pending, expected_media, max_attempt, recover_part}
use discord_stoat_ferry.Delivery.Safety.{Covers}

abbrev pub Later : List DeliveryPart → List DeliveryPart → Type 0
Later [] [] = Unit
Later [] (q ∷ qs) = ⊥
Later (p ∷ ps) [] = ⊥
Later (p ∷ ps) (q ∷ qs) = (p.attempt ≤ q.attempt) × Later ps qs

max_attempt-Later : (ps qs : List DeliveryPart) → Later ps qs → max_attempt ps ≤ max_attempt qs
unfolding max_attempt
max_attempt-Later [] [] l = omega arith
max_attempt-Later [] (q ∷ qs) l = elim l [ ]
max_attempt-Later (p ∷ ps) [] l = elim l [ ]
max_attempt-Later (p ∷ ps) (q ∷ qs) (l, ls) = ground (arith, max_attempt-Later ps qs ls)

own-Later :
    (ps qs : List DeliveryPart) (i : ℕ) (q : DeliveryPart)
    → Later ps qs
    → get_elem? qs i ≡ some q
    → (p : DeliveryPart) × (get_elem? ps i ≡ some p) × (p.attempt ≤ q.attempt)
own-Later [] [] i q l e = cc
own-Later [] (r ∷ qs) i q l e = elim l [ ]
own-Later (p ∷ ps) [] i q l e = elim l [ ]
own-Later (p ∷ ps) (r ∷ qs) zero q (l, ls) e =
    let same : r ≡ q = some-injective _ _ e in (p, refl, subst (λ x. p.attempt ≤ x.attempt) same l)
own-Later (p ∷ ps) (r ∷ qs) (suc i) q (l, ls) e = own-Later ps qs i q ls e

pub Covers-Later :
    {ps qs : List DeliveryPart} {attempt i : ℕ}
    → Later ps qs
    → Covers ps attempt i
    → Covers qs attempt i
Covers-Later {ps} {qs} {attempt} {i} l c = record {
  below_all = omega (arith, max_attempt-Later ps qs l, c.below_all);
  below_own = λ q e. let (p, at, le) = own-Later ps qs i q l e in omega (arith, c.below_own p at);
}

pub Later-refl : (ps : List DeliveryPart) → Later ps ps
Later-refl [] = tt
Later-refl (p ∷ ps) = (omega arith, Later-refl ps)

pub Later-set :
    (ps : List DeliveryPart) (i : ℕ) (p q : DeliveryPart)
    → get_elem? ps i ≡ some p
    → p.attempt ≤ q.attempt
    → Later ps (set ps i q)
Later-set [] i p q e l = cc
Later-set (r ∷ ps) zero p q e l =
    let same : r ≡ p = some-injective _ _ e in
    (subst (λ x. x.attempt ≤ q.attempt) (sym same) l, Later-refl ps)
Later-set (r ∷ ps) (suc i) p q e l = (omega arith, Later-set ps i p q e l)

pub Later-map :
    (f : DeliveryPart → DeliveryPart)
    → ((p : DeliveryPart) → (f p).attempt ≡ p.attempt)
    → (ps : List DeliveryPart) → Later ps (map f ps)
Later-map f same [] = tt
Later-map f same (p ∷ ps) = (omega (arith, same p), Later-map f same ps)

pub get_elem?-set :
    (ps : List DeliveryPart) (i : ℕ) (p q : DeliveryPart)
    → get_elem? ps i ≡ some p
    → get_elem? (set ps i q) i ≡ some q
get_elem?-set [] i p q e = cc
get_elem?-set (r ∷ ps) zero p q e = refl
get_elem?-set (r ∷ ps) (suc i) p q e = get_elem?-set ps i p q e

pub below_max :
    (ps : List DeliveryPart) (i : ℕ) (p : DeliveryPart)
    → get_elem? ps i ≡ some p
    → p.attempt ≤ max_attempt ps
unfolding max_attempt
below_max [] i p e = cc
below_max (r ∷ ps) zero p e =
    let same : r ≡ p = some-injective _ _ e in
    subst (λ x. x.attempt ≤ max_attempt (r ∷ ps)) same (ground arith)
below_max (r ∷ ps) (suc i) p e = ground (arith, below_max ps i p e)

pub attempt-record_media :
    (verify : Bool) (p : DeliveryPart) (expected : Option (List String)) (row : Value)
    → (record_media verify p expected row).attempt ≡ p.attempt
unfolding record_media
attempt-record_media false p expected row = refl
attempt-record_media true p expected row = elim (Result-cases (history_media row)) [
  | inl (x, h) ↦ rw h refl
  | inr (media, h) ↦ rw h refl
]

pub attempt-recover_part :
    (setup : Setup) (matches : Dict Value) (p : DeliveryPart)
    → (recover_part setup matches p).attempt ≡ p.attempt
attempt-recover_part setup matches p = elim (Bool-cases (is_pending p)) [
  | inr h ↦ rw h refl
  | inl h ↦ elim (Option-cases (Dict.get matches p.key)) [
    | inl n ↦ rw (h, n) refl
    | inr (row, n) ↦
        rw (h, n)
          (attempt-record_media setup.verify_uploads (with_status p acknowledged (id_of row))
            (expected_media p) row)
  ]
]

attempt-new_part :
    (index : ℕ) (key : String) (attempt : ℕ) → (new_part index key attempt).attempt ≡ attempt
attempt-new_part index key attempt = refl
