-- ===== src/Delivery/Confirmed/Sending.antt =====
-- A part that is looked up, sent or retried is confirmed if the call returns.
use discord_stoat_ferry.Prelude.{
  ℕ, ◌+◌, ◌≡◌, refl, ◌∙◌, String, Bool, true, false, not, ◌&&◌, ◌||◌, Option, some, List, [], ◌∷◌,
  get_elem?, map, Bool-cases, Option-cases, inl, inr,
}
use discord_stoat_ferry.Prelude.Result.{Result-cases}
use discord_stoat_ferry.Prelude.Json.{Value}
use discord_stoat_ferry.Delivery.Receipt.{
  DeliveryPart, DeliveryReceipt, PartStatus, prepared, uncertain, acknowledged, confirmed_rejected,
  unresolved, send_rejected, is_stoat_id, is_empty,
}
use discord_stoat_ferry.Delivery.Keys.{Setup, delivery_key}
use discord_stoat_ferry.Delivery.Exec.{
  World, note_write_rejected, note_write_confirmed, lift, raise_when,
}
use discord_stoat_ferry.Delivery.Files.{write_delivery_receipt}
use discord_stoat_ferry.Delivery.History.{Page, find_messages, history_media}
use discord_stoat_ferry.Delivery.Legacy.{is_acknowledged, id_of}
use discord_stoat_ferry.Delivery.Send.{Outcome, accepted, rejected, failed}
use discord_stoat_ferry.Delivery.Send
use discord_stoat_ferry.Delivery.Parts.{
  Call, Answers, DeliveryResult, with_part, with_parts, with_status, record_media,
}
use discord_stoat_ferry.Delivery.Deliver.{
  recover, recover_part, pending_keys, look_up, look_up_or_send, after_send, acknowledge, dispatch,
  submitted, deliver_open, retry, retried, deliver_by_status, deliver_saved, flag_media, prepare,
  with_event,
}
use discord_stoat_ferry.Delivery.Safety.Attempts.{get_elem?-set}
use discord_stoat_ferry.Delivery.Safety.Rules.{Post, continue-Post, raise_when-Post}
use discord_stoat_ferry.Delivery.Safety.Sending.{part_at-Post}
use discord_stoat_ferry.Delivery.Confirmed.{
  Confirmed, Any, Whatever, anything, acknowledged_part, result-Confirmed,
}

-- The part in hand is acknowledged.
abbrev Acked : ℕ → DeliveryReceipt → World → Type 0
Acked i receipt w =
    (part : DeliveryPart) × (get_elem? receipt.parts i ≡ some part) × (part.status ≡ acknowledged)

pub status-record_media :
    (verify : Bool) (part : DeliveryPart) (expected : Option (List String)) (row : Value)
    → (record_media verify part expected row).status ≡ part.status
unfolding record_media
status-record_media false part expected row = refl
status-record_media true part expected row = elim (Result-cases (history_media row)) [
  | inl (x, h) ↦ rw h refl
  | inr (media, h) ↦ rw h refl
]

module _ (setup : Setup) (call : Call) (answers : Answers) where
  recover-Acked :
      (receipt : DeliveryReceipt) (pages : List Page) (w : World)
      → Post (Acked call.part_index) Any (recover setup call receipt pages w)
  unfolding recover
  recover-Acked receipt pages w =
      continue-Post Whatever (Acked call.part_index) Any _ _
        (anything (
          lift (find_messages call.ref.destination_channel_id (pending_keys receipt.parts) pages)
            w))
        λ matches w1 _.
          let found =
            with_parts receipt receipt.render_digest
              (map (recover_part setup matches) receipt.parts) in
          continue-Post Whatever (Acked call.part_index) Any _ _
            (anything (write_delivery_receipt setup found w1))
            λ token w2 _.
              continue-Post (λ part after. get_elem? found.parts call.part_index ≡ some part)
                (Acked call.part_index) Any _ _
                (part_at-Post setup _ Any found call.part_index w2 (λ part at. at) tt)
                λ part w3 at.
                  continue-Post (λ _ after. Acked call.part_index found after)
                    (Acked call.part_index) Any _ _
                    (raise_when-Post _ Any (not (is_acknowledged part)) unresolved w3
                      (λ h. (part, at, acknowledged_part part h)) tt)
                    λ _ w4 acked. acked

  look_up-Confirmed :
      (receipt : DeliveryReceipt) (pages : List Page) (w : World)
      → Post (Confirmed call.part_index) Any (look_up setup call receipt pages w)
  look_up-Confirmed receipt pages w =
      continue-Post (Acked call.part_index) (Confirmed call.part_index) Any _ _
        (recover-Acked receipt pages w)
        λ found after (part, at, status).
          result-Confirmed setup call.part_index found part true after at status

  with_event-Confirmed :
      (delivered : DeliveryResult) (w : World)
      → Confirmed call.part_index delivered w
      → Confirmed call.part_index delivered (with_event note_write_confirmed w)
  with_event-Confirmed delivered w c = record {
    receipt = c.receipt;
    part = c.part;
    saved = c.saved;
    at = c.at;
    status = c.status;
    message = c.message;
    identified = c.identified;
    resolved = c.resolved;
  }

  after_send-Confirmed :
      (receipt : DeliveryReceipt) (part : DeliveryPart) (pages : List Page) (outcome : Outcome)
      (w : World)
      → get_elem? receipt.parts call.part_index ≡ some part
      → Post (Confirmed call.part_index) Any (after_send setup call receipt part pages outcome w)
  unfolding after_send
  after_send-Confirmed receipt part pages (accepted message) w at =
      let updated = acknowledge setup part message in
      continue-Post (Confirmed call.part_index) (Confirmed call.part_index) Any _ _
        (result-Confirmed setup call.part_index (with_part receipt call.part_index updated) updated
          false w (get_elem?-set receipt.parts call.part_index part updated at)
          (status-record_media setup.verify_uploads (with_status part acknowledged (id_of message))
            (some part.autumn_ids) message))
        λ delivered after c. with_event-Confirmed delivered after c
  after_send-Confirmed receipt part pages rejected w at =
      continue-Post Whatever (Confirmed call.part_index) Any _ _
        (anything (
          write_delivery_receipt setup
            (with_part receipt call.part_index
              (with_status part confirmed_rejected part.message_id))
            (with_event note_write_rejected w)))
        λ token after _. tt
  after_send-Confirmed receipt part pages Send.uncertain w at =
      continue-Post Whatever (Confirmed call.part_index) Any _ _
        (anything (recover setup call receipt pages w))
        λ found w1 _.
          continue-Post (λ p after. get_elem? found.parts call.part_index ≡ some p)
            (Confirmed call.part_index) Any _ _
            (part_at-Post setup _ Any found call.part_index w1 (λ p e. e) tt)
            λ p w2 e.
              continue-Post Whatever (Confirmed call.part_index) Any _ _
                (anything (raise_when (not (is_stoat_id p.message_id)) unresolved w2))
                λ _ w3 _.
                  result-Confirmed setup call.part_index _ (with_status p acknowledged p.message_id)
                    true w3
                    (get_elem?-set found.parts call.part_index p
                      (with_status p acknowledged p.message_id) e)
                    refl
  after_send-Confirmed receipt part pages failed w at = tt

  dispatch-Confirmed :
      (receipt : DeliveryReceipt) (part : DeliveryPart) (w : World)
      → get_elem? receipt.parts call.part_index ≡ some part
      → Post (Confirmed call.part_index) Any (dispatch setup call answers receipt part w)
  unfolding dispatch
  dispatch-Confirmed receipt part w at =
      continue-Post Whatever (Confirmed call.part_index) Any _ _
        (anything (lift answers.permission w))
        λ _ w1 _.
          continue-Post Whatever (Confirmed call.part_index) Any _ _
            (anything (
              write_delivery_receipt setup (with_part receipt call.part_index (submitted call part))
                w1))
            λ token w2 _.
              after_send-Confirmed (with_part receipt call.part_index (submitted call part))
                (submitted call part) answers.pages answers.outcome _
                (get_elem?-set receipt.parts call.part_index part (submitted call part) at)

  look_up_or_send-Confirmed :
      (receipt : DeliveryReceipt) (part : DeliveryPart) (look : Bool) (w : World)
      → get_elem? receipt.parts call.part_index ≡ some part
      → Post
          (Confirmed call.part_index)
          Any
          (look_up_or_send setup call answers receipt part look w)
  look_up_or_send-Confirmed receipt part true w at = look_up-Confirmed receipt answers.pages w
  look_up_or_send-Confirmed receipt part false w at = dispatch-Confirmed receipt part w at

  retry-Confirmed :
      (receipt : DeliveryReceipt) (part : DeliveryPart) (w : World)
      → get_elem? receipt.parts call.part_index ≡ some part
      → Post (Confirmed call.part_index) Any (retry setup call answers receipt part w)
  unfolding retry deliver_open
  retry-Confirmed receipt part w at =
      continue-Post Whatever (Confirmed call.part_index) Any _ _
        (anything (raise_when (not call.allow_rejected_retry || call.recover_only) send_rejected w))
        λ _ w1 _.
          continue-Post Whatever (Confirmed call.part_index) Any _ _
            (anything (lift (delivery_key setup call.ref (part.attempt + 1) call.part_index) w1))
            λ k w2 _.
              let again = with_part receipt call.part_index (retried part k) in
              continue-Post Whatever (Confirmed call.part_index) Any _ _
                (anything (prepare setup again (k ∷ []) w2))
                λ _ w3 _.
                  look_up_or_send-Confirmed again (retried part k) _ w3
                    (get_elem?-set receipt.parts call.part_index part (retried part k) at)

  status-flag_media : (part : DeliveryPart) → (flag_media setup part).status ≡ part.status
  status-flag_media part = elim (Option-cases part.association_status) [
    | inr (status, h) ↦ rw h refl
    | inl h ↦ elim (Bool-cases (setup.verify_uploads && not (is_empty part.autumn_ids))) [
      | inl b ↦ rw (h, b) refl
      | inr b ↦ rw (h, b) refl
    ]
  ]

  by_status-Confirmed :
      (receipt : DeliveryReceipt) (part : DeliveryPart) (status : PartStatus) (w : World)
      → get_elem? receipt.parts call.part_index ≡ some part
      → part.status ≡ status
      → Post
          (Confirmed call.part_index)
          Any
          (deliver_by_status setup call answers receipt part status w)
  unfolding deliver_open
  by_status-Confirmed receipt part acknowledged w at e =
      result-Confirmed setup call.part_index
        (with_part receipt call.part_index (flag_media setup part)) (flag_media setup part) true w
        (get_elem?-set receipt.parts call.part_index part (flag_media setup part) at)
        (status-flag_media part ∙ e)
  by_status-Confirmed receipt part confirmed_rejected w at e = retry-Confirmed receipt part w at
  by_status-Confirmed receipt part prepared w at e = look_up_or_send-Confirmed receipt part _ w at
  by_status-Confirmed receipt part uncertain w at e = look_up_or_send-Confirmed receipt part _ w at

  pub deliver_saved-Confirmed :
      (receipt : DeliveryReceipt) (w : World)
      → Post (Confirmed call.part_index) Any (deliver_saved setup call answers receipt w)
  unfolding deliver_saved
  deliver_saved-Confirmed receipt w =
      continue-Post (λ part after. get_elem? receipt.parts call.part_index ≡ some part)
        (Confirmed call.part_index) Any _ _
        (part_at-Post setup _ Any receipt call.part_index w (λ part e. e) tt)
        λ part w1 at. by_status-Confirmed receipt part part.status w1 at refl
