-- ===== src/Delivery/Confirmed/Calls.antt =====
-- A whole call of `deliver_part` that returns has confirmed its part.
use discord_stoat_ferry.Prelude.{
  ℕ, zero, suc, ◌≡◌, ap, sym, ◌∙◌, subst, true, false, not, ◌||◌, Option, none, some, List, [], ◌∷◌,
  get_elem?, arith, Bool-cases, inl, inr, ltb,
}
use mathlib.Core.Option.{some-injective}
use discord_stoat_ferry.Prelude.Result.{Result, ok, err, Result-cases}
use discord_stoat_ferry.Prelude.Json.{Value}
use discord_stoat_ferry.Delivery.Receipt.{
  DeliveryPart, DeliveryReceipt, DeliveryError, acknowledged, value_error, state_error, is_hex_of,
}
use discord_stoat_ferry.Delivery.Keys.{Setup}
use discord_stoat_ferry.Delivery.Exec.{World, lift, raise_when}
use discord_stoat_ferry.Delivery.Files.{read_delivery_receipt}
use discord_stoat_ferry.Delivery.History.{history_media}
use discord_stoat_ferry.Delivery.Legacy.{id_of, legacy_rows}
use discord_stoat_ferry.Delivery.Parts.{
  Call, Answers, DeliveryResult, with_parts, with_status, with_media, record_media,
}
use discord_stoat_ferry.Delivery.Deliver.{
  rerender, establish, acknowledge_row, acknowledge_rows, deliver_found, deliver_part,
  saved_keys_match,
}
use discord_stoat_ferry.Delivery.Safety.Rules.{Post, continue-Post, lift-Post}
use discord_stoat_ferry.Delivery.Confirmed.{Confirmed, Any, Whatever, anything, result_confirms}
use discord_stoat_ferry.Delivery.Confirmed.Sending.{status-record_media, deliver_saved-Confirmed}

module _ (setup : Setup) (call : Call) (answers : Answers) where
  status-acknowledge_row :
      (part out : DeliveryPart) (row : Value)
      → acknowledge_row setup part row ≡ ok out
      → out.status ≡ part.status
  status-acknowledge_row part out row h = elim (Bool-cases setup.verify_uploads) [
    | inl v ↦
        let made : record_media true part none row ≡ out = ground arith in
        ap (λ x. x.status) (sym made) ∙ status-record_media true part none row
    | inr v ↦ elim (Result-cases (history_media row)) [
      | inl (x, raised) ↦ absurd (ground arith)
      | inr (media, found) ↦
          let made : with_media part media part.association_status ≡ out = ground arith in
          ap (λ x. x.status) (sym made)
    ]
  ]

  acknowledge_rows_lem :
      (parts out : List DeliveryPart) (rows : List Value)
      → acknowledge_rows setup parts rows ≡ ok out
      → (i : ℕ) (part : DeliveryPart) → get_elem? out i ≡ some part
      → part.status ≡ acknowledged
  unfolding acknowledge_rows
  acknowledge_rows_lem [] [] [] h i part e = cc
  acknowledge_rows_lem [] (q ∷ out) [] h i part e = cc
  acknowledge_rows_lem [] out (row ∷ rows) h i part e = cc
  acknowledge_rows_lem (p ∷ parts) out [] h i part e = cc
  acknowledge_rows_lem (p ∷ parts) out (row ∷ rows) h i part e =
      let known = with_status p acknowledged (id_of row) in
      elim (Result-cases (acknowledge_row setup known row)) [
        | inl (x, raised) ↦ absurd (ground arith)
        | inr (first, h1) ↦ elim (Result-cases (acknowledge_rows setup parts rows)) [
          | inl (x, raised) ↦ absurd (ground arith)
          | inr (rest, h2) ↦
              let made : first ∷ rest ≡ out = ground arith in
              found i rest first (status-acknowledge_row known first row h1)
                (λ j. acknowledge_rows_lem parts rest rows h2 j part)
                (subst (λ x. get_elem? x i ≡ some part) (sym made) e)
        ]
      ]
    where
      found :
          (i : ℕ) (rest : List DeliveryPart) (first : DeliveryPart)
          → first.status ≡ acknowledged
          → ((j : ℕ) → get_elem? rest j ≡ some part → part.status ≡ acknowledged)
          → get_elem? (first ∷ rest) i ≡ some part
          → part.status ≡ acknowledged
      found zero rest first here there e =
          subst (λ x. x.status ≡ acknowledged) (some-injective _ _ e) here
      found (suc i) rest first here there e = there i e

  deliver_found-Confirmed :
      (saved : Option DeliveryReceipt) (rows : Option (List Value)) (w : World)
      → Post (Confirmed call.part_index) Any (deliver_found setup call answers saved rows w)
  unfolding deliver_found
  deliver_found-Confirmed saved (some rows) w =
      continue-Post Whatever (Confirmed call.part_index) Any _ _
        (anything (establish setup call saved true w))
        λ receipt w1 _.
          continue-Post (λ parts after. acknowledge_rows setup receipt.parts rows ≡ ok parts)
            (Confirmed call.part_index) Any _ _
            (lift-Post _ Any (acknowledge_rows setup receipt.parts rows) w1 (λ parts e. e) tt)
            λ parts w2 e.
              result_confirms setup call.part_index (with_parts receipt receipt.render_digest parts)
                true w2 (acknowledge_rows_lem receipt.parts parts rows e call.part_index)
  deliver_found-Confirmed saved none w =
      continue-Post Whatever (Confirmed call.part_index) Any _ _
        (anything (establish setup call saved false w))
        λ receipt w1 _.
          continue-Post Whatever (Confirmed call.part_index) Any _ _
            (anything (rerender setup call receipt w1))
            λ rendered w2 _. deliver_saved-Confirmed setup call answers rendered w2

  deliver_part_confirms :
      (w : World) → Post (Confirmed call.part_index) Any (deliver_part setup call answers w)
  unfolding deliver_part
  deliver_part_confirms w =
      continue-Post Whatever (Confirmed call.part_index) Any _ _
        (anything (raise_when setup.dry_run value_error w))
        λ _ w1 _.
          continue-Post Whatever (Confirmed call.part_index) Any _ _
            (anything (
              raise_when
                (not (ltb call.part_index call.part_count) || not (is_hex_of 64 call.render_digest))
                value_error w1))
            λ _ w2 _.
              continue-Post Whatever (Confirmed call.part_index) Any _ _
                (anything (read_delivery_receipt setup call.ref w2))
                λ saved w3 _.
                  continue-Post Whatever (Confirmed call.part_index) Any _ _
                    (anything (lift (saved_keys_match setup call.ref saved) w3))
                    λ match w4 _.
                      continue-Post Whatever (Confirmed call.part_index) Any _ _
                        (anything (raise_when (not match) state_error w4))
                        λ _ w5 _.
                          continue-Post Whatever (Confirmed call.part_index) Any _ _
                            (anything (
                              lift
                                (legacy_rows call.legacy_keys saved call.render_digest
                                  call.part_count call.ref.destination_channel_id answers.pages)
                                w5))
                            λ rows w6 _. deliver_found-Confirmed saved rows w6

Confirmed-of_Post :
    (i : ℕ) (r : Result DeliveryError DeliveryResult × World) (delivered : DeliveryResult)
    (after : World)
    → Post (Confirmed i) Any r
    → r ≡ (ok delivered, after)
    → Confirmed i delivered after
Confirmed-of_Post i (ok a, w) delivered after p e =
    let same : a ≡ delivered = cc in
    let same_world : w ≡ after = cc in
    subst (λ x. Confirmed i delivered x) same_world (subst (λ x. Confirmed i x w) same p)
Confirmed-of_Post i (err x, w) delivered after p e = cc

-- A delivery that returns is on record. After it the receipt file holds a receipt in which the part
-- is acknowledged with the identifier that is returned, which is valid, and the delivery is reported
-- as fully resolved exactly if every part of that receipt is acknowledged.
pub deliver_part-Confirmed :
    (setup : Setup) (call : Call) (answers : Answers) (w : World) (delivered : DeliveryResult)
    (after : World)
    → deliver_part setup call answers w ≡ (ok delivered, after)
    → Confirmed call.part_index delivered after
deliver_part-Confirmed setup call answers w delivered after h =
    Confirmed-of_Post call.part_index (deliver_part setup call answers w) delivered after
      (deliver_part_confirms setup call answers w) h
