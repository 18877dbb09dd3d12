-- ===== src/Delivery/Safety/Renewal.antt =====
-- New parts, and parts acknowledged from a legacy delivery.
use discord_stoat_ferry.Prelude.{
  ℕ, zero, suc, ◌+◌, ◌<◌, ◌≤◌, ◌≡◌, refl, ap, sym, ◌∙◌, subst, String, str_eq, eq_iff, true, none,
  List, [], ◌∷◌, arith, Bool-cases, inl, inr,
}
use discord_stoat_ferry.Prelude.Result.{ok, Result-cases, >>=-eq-ok}
use discord_stoat_ferry.Prelude.Json.{Value}
use discord_stoat_ferry.Delivery.Receipt.{DeliveryRef, DeliveryPart, acknowledged, is_among}
use discord_stoat_ferry.Delivery.Keys.{Setup, delivery_key, new_parts}
use discord_stoat_ferry.Delivery.History.{history_media}
use discord_stoat_ferry.Delivery.Legacy.{id_of}
use discord_stoat_ferry.Delivery.Parts.{with_status, with_media, record_media}
use discord_stoat_ferry.Delivery.Deliver.{keys_of, max_attempt, acknowledge_rows, acknowledge_row}
use discord_stoat_ferry.Delivery.Safety.{Covers, key}
use discord_stoat_ferry.Delivery.Safety.Attempts.{Later, attempt-record_media}
use discord_stoat_ferry.Delivery.Safety.Keyed.{NewFrom, New-at, new_parts_lem}
use discord_stoat_ferry.Delivery.Safety.Attempts.{below_max}

module _ (setup : Setup) (ref : DeliveryRef) where
  pub key_of_new :
      (attempt index : ℕ) (parts : List DeliveryPart)
      → NewFrom setup ref attempt index parts
      → (k : String) → is_among (keys_of parts) k ≡ true
      → (j : ℕ) × (key setup ref attempt j ≡ k)
  unfolding is_among
  key_of_new attempt index [] n k h = absurd (cc)
  key_of_new attempt index (part ∷ parts) ((a, own), ns) k h =
      elim (Bool-cases (str_eq part.key k)) [
        | inl hit ↦ (index, sym own ∙ (eq_iff part.key k).0 hit)
        | inr miss ↦ key_of_new attempt (index + 1) parts ns k (ground arith)
      ]

  pub Covers-new :
      (attempt index count : ℕ) (parts : List DeliveryPart)
      → new_parts setup ref attempt index count ≡ ok parts
      → 0 < count
      → (earlier i : ℕ) → earlier ≤ attempt
      → Covers parts earlier i
  unfolding new_parts
  Covers-new attempt index zero parts e nonempty earlier i le = absurd (omega arith)
  Covers-new attempt index (suc count) parts e nonempty earlier i le =
      let new = new_parts_lem setup ref attempt index (suc count) parts e in
      record {
        below_all = first parts new e;
        below_own = λ part at.
            let same = New-at setup ref attempt index parts new i part at in omega (arith, same);
      }
    where
      first :
          (parts : List DeliveryPart)
          → NewFrom setup ref attempt index parts
          → new_parts setup ref attempt index (suc count) ≡ ok parts
          → earlier ≤ max_attempt parts
      first [] n h =
          let (k, h1, h2) = >>=-eq-ok (delivery_key setup ref attempt index) _ h in
          let (rest, h3, h4) = >>=-eq-ok (new_parts setup ref attempt (index + 1) count) _ h2 in
          absurd (cc)
      first (part ∷ parts) n h =
          let same = New-at setup ref attempt index (part ∷ parts) n 0 part refl in
          omega (arith, same, below_max (part ∷ parts) 0 part refl)

  attempt-acknowledge_row :
      (part out : DeliveryPart) (row : Value)
      → acknowledge_row setup part row ≡ ok out
      → out.attempt ≡ part.attempt
  attempt-acknowledge_row part out row h = elim (Bool-cases setup.verify_uploads) [
    | inl v ↦
        let made : record_media true part none row ≡ out = ground arith in
        ap (λ x. x.attempt) (sym made) ∙ attempt-record_media true part none row
    | inr v ↦ elim (Result-cases (history_media row)) [
      | inl (x, failed) ↦ absurd (ground arith)
      | inr (media, found) ↦
          let made : with_media part media part.association_status ≡ out = ground arith in
          ap (λ x. x.attempt) (sym made)
    ]
  ]

  pub Later-acknowledge_rows :
      (parts out : List DeliveryPart) (rows : List Value)
      → acknowledge_rows setup parts rows ≡ ok out
      → Later parts out
  unfolding acknowledge_rows
  Later-acknowledge_rows [] [] [] h = tt
  Later-acknowledge_rows [] (q ∷ out) [] h = cc
  Later-acknowledge_rows [] out (row ∷ rows) h = cc
  Later-acknowledge_rows (part ∷ parts) out [] h = cc
  Later-acknowledge_rows (part ∷ parts) out (row ∷ rows) h =
      let known = with_status part acknowledged (id_of row) in
      elim (Result-cases (acknowledge_row setup known row)) [
        | inl (x, failed) ↦ absurd (ground arith)
        | inr (first, h1) ↦ elim (Result-cases (acknowledge_rows setup parts rows)) [
          | inl (x, failed) ↦ absurd (ground arith)
          | inr (rest, h2) ↦
              let made : first ∷ rest ≡ out = ground arith in
              subst (λ x. Later (part ∷ parts) x) made
                (
                  omega (arith, attempt-acknowledge_row known first row h1),
                  Later-acknowledge_rows parts rest rows h2,
                )
        ]
      ]
