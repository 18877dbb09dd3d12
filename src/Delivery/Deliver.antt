-- ===== src/Delivery/Deliver.antt =====
-- migrator/delivery.py: `deliver_part`. The lock makes one call at a time of a delivery, so that a
-- call is one function of the state.
use discord_stoat_ferry.Prelude.{
  ℕ, ◌+◌, String, str_eq, Bool, true, false, not, ◌&&◌, ◌||◌, Option, none, some, List, [], ◌∷◌,
  ◌++◌, map, if◌then◌else◌, ltb, all,
}
use discord_stoat_ferry.Prelude.Result.{Result, ok, err}
use discord_stoat_ferry.Prelude.Dict
use discord_stoat_ferry.Prelude.Dict.{Dict}
use discord_stoat_ferry.Prelude.Json.{Value}
use discord_stoat_ferry.Delivery.Receipt.{
  DeliveryRef, DeliveryPart, PartStatus, prepared, uncertain, acknowledged, confirmed_rejected,
  unavailable, DeliveryReceipt, DeliveryError, value_error, state_error, unresolved, send_rejected,
  other, is_hex_of, is_among, is_empty,
}
use discord_stoat_ferry.Delivery.Keys.{Setup, delivery_key, new_parts, keys_match}
use discord_stoat_ferry.Delivery.Exec.{
  World, Exec, Event, note_write, note_write_rejected, note_write_confirmed, sent, pure, lift,
  raise, raise_when, gets, modify, ◌>>=◌, ◌>>◌,
}
use discord_stoat_ferry.Delivery.Files.{write_delivery_receipt, read_delivery_receipt}
use discord_stoat_ferry.Delivery.Legacy.{legacy_rows, id_of, is_acknowledged, is_other_render}
use discord_stoat_ferry.Delivery.History.{Page, find_messages, history_media, submitted_media}
use discord_stoat_ferry.Delivery.Send.{Outcome, accepted, rejected, failed}
use discord_stoat_ferry.Delivery.Send
use discord_stoat_ferry.Delivery.Receipt.{is_stoat_id}
use discord_stoat_ferry.Delivery.Parts.{
  Call, Answers, DeliveryResult, with_status, with_media, with_parts, with_part, record_media,
  part_at, result,
}

abbrev pub with_fresh : List String → World → World
with_fresh fresh w = record { disk = w.disk; fresh = fresh; log = w.log; faults = w.faults }

abbrev pub with_event : Event → World → World
with_event event w = record {
  disk = w.disk;
  fresh = w.fresh;
  log = event ∷ w.log;
  faults = w.faults;
}

-- `fresh.discard(key)`
unfoldable pub discard : List String → String → List String
discard [] key = []
discard (k ∷ keys) key = let rest = discard keys key in if str_eq k key then rest else k ∷ rest

-- A receipt with new keys is written, and then this session may send under them.
unfoldable pub prepare : Setup → DeliveryReceipt → List String → Exec (Unit {0})
prepare setup receipt keys = do
  token ← write_delivery_receipt setup receipt
  modify (λ w. with_fresh (keys ++ w.fresh) w)

abbrev pub keys_of : List DeliveryPart → List String
keys_of parts = map (λ part. part.key) parts

abbrev pub is_pending : DeliveryPart → Bool
is_pending part = elim part.status [
  | prepared ↦ true
  | uncertain ↦ true
  | acknowledged ↦ false
  | confirmed_rejected ↦ false
]

unfoldable pub pending_keys : List DeliveryPart → List String
pending_keys [] = []
pending_keys (part ∷ parts) =
    let keys = pending_keys parts in if is_pending part then part.key ∷ keys else keys

-- The media that a sent part was submitted with; a prepared part has none recorded.
abbrev pub expected_media : DeliveryPart → Option (List String)
expected_media part = elim part.status [
  | uncertain ↦ some part.autumn_ids
  | prepared ↦ none
  | acknowledged ↦ none
  | confirmed_rejected ↦ none
]

abbrev recover_with : Setup → DeliveryPart → Option Value → DeliveryPart
recover_with setup part none = part
recover_with setup part (some row) =
    record_media setup.verify_uploads (with_status part acknowledged (id_of row))
      (expected_media part) row

abbrev pub recover_part : Setup → Dict Value → DeliveryPart → DeliveryPart
recover_part setup matches part =
    if is_pending part then recover_with setup part (Dict.get matches part.key) else part

-- `recover`: the receipt, with each pending part that the history has acknowledged.
unfoldable pub recover : Setup → Call → DeliveryReceipt → List Page → Exec DeliveryReceipt
recover setup call receipt pages = do
  matches ← lift (find_messages call.ref.destination_channel_id (pending_keys receipt.parts) pages)
  let found =
      with_parts receipt receipt.render_digest (map (recover_part setup matches) receipt.parts)
  token ← write_delivery_receipt setup found
  part ← part_at found call.part_index
  raise_when (not (is_acknowledged part)) unresolved
  pure found

-- A call that sends nothing: the part is looked up.
abbrev pub look_up : Setup → Call → DeliveryReceipt → List Page → Exec DeliveryResult
look_up setup call receipt pages = do
  found ← recover setup call receipt pages
  result setup found call.part_index true

abbrev pub acknowledge : Setup → DeliveryPart → Value → DeliveryPart
acknowledge setup part message =
    record_media setup.verify_uploads (with_status part acknowledged (id_of message))
      (some part.autumn_ids) message

-- What follows the request, for each of its outcomes. `receipt` is the one that was written before.
unfoldable pub after_send :
    Setup → Call → DeliveryReceipt → DeliveryPart → List Page → Outcome → Exec DeliveryResult
after_send setup call receipt part pages (accepted message) = do
  delivered ←
      result setup (with_part receipt call.part_index (acknowledge setup part message))
        call.part_index false
  modify (with_event note_write_confirmed)
  pure delivered
after_send setup call receipt part pages rejected = do
  modify (with_event note_write_rejected)
  token ←
      write_delivery_receipt setup
        (with_part receipt call.part_index (with_status part confirmed_rejected part.message_id))
  raise send_rejected
after_send setup call receipt part pages Send.uncertain = do
  found ← recover setup call receipt pages
  recovered ← part_at found call.part_index
  raise_when (not (is_stoat_id recovered.message_id)) unresolved
  result setup
      (with_part found call.part_index (with_status recovered acknowledged recovered.message_id))
      call.part_index true
after_send setup call receipt part pages failed = raise other

abbrev pub submitted : Call → DeliveryPart → DeliveryPart
submitted call part =
    with_media (with_status part uncertain part.message_id)
      (submitted_media call.attachments call.embeds) none

-- The part is saved as uncertain before the request is sent.
unfoldable pub dispatch :
    Setup → Call → Answers → DeliveryReceipt → DeliveryPart → Exec DeliveryResult
dispatch setup call answers receipt part = do
  allowed ← lift answers.permission
  token ← write_delivery_receipt setup (with_part receipt call.part_index (submitted call part))
  modify (λ w. with_fresh (discard w.fresh part.key) w)
  modify (with_event note_write)
  modify (λ w. with_event (sent part.key (Dict.get w.disk token.receipt_id)) w)
  after_send setup call (with_part receipt call.part_index (submitted call part))
      (submitted call part) answers.pages answers.outcome

abbrev pub is_uncertain : DeliveryPart → Bool
is_uncertain part = elim part.status [
  | uncertain ↦ true
  | prepared ↦ false
  | acknowledged ↦ false
  | confirmed_rejected ↦ false
]

abbrev pub look_up_or_send :
    Setup → Call → Answers → DeliveryReceipt → DeliveryPart → Bool → Exec DeliveryResult
look_up_or_send setup call answers receipt part true = look_up setup call receipt answers.pages
look_up_or_send setup call answers receipt part false = dispatch setup call answers receipt part

-- Only a key that this session prepared, and that was not sent yet, may be sent without a look-up.
unfoldable pub deliver_open :
    Setup → Call → Answers → DeliveryReceipt → DeliveryPart → Exec DeliveryResult
deliver_open setup call answers receipt part = do
  capable ← gets (λ w. is_among w.fresh part.key)
  look_up_or_send setup call answers receipt part
      ((call.recover_only || is_uncertain part) || not capable)

abbrev pub flag_media : Setup → DeliveryPart → DeliveryPart
flag_media setup part = elim part.association_status [
  | some status ↦ part
  | none ↦
      if setup.verify_uploads && not (is_empty part.autumn_ids)
      then with_media part part.autumn_ids (some unavailable)
      else part
]

abbrev pub retried : DeliveryPart → String → DeliveryPart
retried part key = record {
  index = part.index;
  key = key;
  attempt = part.attempt + 1;
  status = prepared;
  message_id = part.message_id;
  autumn_ids = part.autumn_ids;
  association_status = part.association_status;
}

-- A rejected part is tried again under the key of its next attempt.
unfoldable pub retry : Setup → Call → Answers → DeliveryReceipt → DeliveryPart → Exec DeliveryResult
retry setup call answers receipt part = do
  raise_when (not call.allow_rejected_retry || call.recover_only) send_rejected
  key ← lift (delivery_key setup call.ref (part.attempt + 1) call.part_index)
  prepare setup (with_part receipt call.part_index (retried part key)) (key ∷ [])
  deliver_open setup call answers (with_part receipt call.part_index (retried part key))
      (retried part key)

-- What a part's saved status calls for.
abbrev pub deliver_by_status :
    Setup → Call → Answers → DeliveryReceipt → DeliveryPart → PartStatus → Exec DeliveryResult
deliver_by_status setup call answers receipt part acknowledged =
    result setup (with_part receipt call.part_index (flag_media setup part)) call.part_index true
deliver_by_status setup call answers receipt part confirmed_rejected =
    retry setup call answers receipt part
deliver_by_status setup call answers receipt part prepared =
    deliver_open setup call answers receipt part
deliver_by_status setup call answers receipt part uncertain =
    deliver_open setup call answers receipt part

unfoldable pub deliver_saved : Setup → Call → Answers → DeliveryReceipt → Exec DeliveryResult
deliver_saved setup call answers receipt = do
  part ← part_at receipt call.part_index
  deliver_by_status setup call answers receipt part part.status

abbrev pub is_rejected : DeliveryPart → Bool
is_rejected part = elim part.status [
  | confirmed_rejected ↦ true
  | prepared ↦ false
  | uncertain ↦ false
  | acknowledged ↦ false
]

-- `max(item.attempt for item in parts)`
unfoldable pub max_attempt : List DeliveryPart → ℕ
max_attempt [] = 0
max_attempt (part ∷ parts) =
    let most = max_attempt parts in if ltb most part.attempt then part.attempt else most

abbrev pub rerender_if : Setup → Call → DeliveryReceipt → Bool → Exec DeliveryReceipt
rerender_if setup call receipt false = pure receipt
rerender_if setup call receipt true = do
  raise_when
      (call.recover_only || (not call.allow_rejected_retry || not (all is_rejected receipt.parts)))
      unresolved
  parts ← lift (new_parts setup call.ref (max_attempt receipt.parts + 1) 0 call.part_count)
  prepare setup (with_parts receipt call.render_digest parts) (keys_of parts)
  pure (with_parts receipt call.render_digest parts)

-- Another render replaces a receipt only if every part of it was rejected.
unfoldable pub rerender : Setup → Call → DeliveryReceipt → Exec DeliveryReceipt
rerender setup call receipt =
    rerender_if setup call receipt
      (is_other_render (some receipt) call.render_digest call.part_count)

abbrev and_then :
    {A B : Type 0} → Result DeliveryError A → (A → Result DeliveryError B) → Result DeliveryError B
and_then (ok a) next = next a
and_then (err e) next = err e

-- Without verification the media are those of the row, and unreadable media are an error.
abbrev pub acknowledge_row : Setup → DeliveryPart → Value → Result DeliveryError DeliveryPart
acknowledge_row setup part row = elim setup.verify_uploads [
  | true ↦ ok (record_media true part none row)
  | false ↦ and_then (history_media row) λ media. ok (with_media part media part.association_status)
]

-- The parts of a legacy delivery, with the row that was found for each.
unfoldable pub acknowledge_rows :
    Setup → List DeliveryPart → List Value → Result DeliveryError (List DeliveryPart)
acknowledge_rows setup [] [] = ok []
acknowledge_rows setup [] (row ∷ rows) = err value_error
acknowledge_rows setup (part ∷ parts) [] = err value_error
acknowledge_rows setup (part ∷ parts) (row ∷ rows) =
    and_then (acknowledge_row setup (with_status part acknowledged (id_of row)) row)
      λ first. and_then (acknowledge_rows setup parts rows) λ rest. ok (first ∷ rest)

abbrev pub new_receipt : Setup → Call → List DeliveryPart → DeliveryReceipt
new_receipt setup call parts = record {
  namespace = setup.namespace;
  service_digest = setup.service_digest;
  ref = call.ref;
  render_digest = call.render_digest;
  parts = parts;
}

-- A legacy delivery is not prepared, since nothing will be sent.
abbrev pub save_new : Setup → DeliveryReceipt → Bool → Exec DeliveryReceipt
save_new setup receipt true = pure receipt
save_new setup receipt false = do prepare setup receipt (keys_of receipt.parts); pure receipt

-- The saved receipt, or a new one.
unfoldable pub establish : Setup → Call → Option DeliveryReceipt → Bool → Exec DeliveryReceipt
establish setup call (some receipt) is_legacy = pure receipt
establish setup call none is_legacy = do
  raise_when call.recover_only unresolved
  parts ← lift (new_parts setup call.ref 0 0 call.part_count)
  save_new setup (new_receipt setup call parts) is_legacy

abbrev pub saved_keys_match :
    Setup → DeliveryRef → Option DeliveryReceipt → Result DeliveryError Bool
saved_keys_match setup ref none = ok true
saved_keys_match setup ref (some receipt) = keys_match setup ref receipt.parts

-- What follows the search for a legacy delivery.
unfoldable pub deliver_found :
    Setup → Call → Answers → Option DeliveryReceipt → Option (List Value) → Exec DeliveryResult
deliver_found setup call answers saved (some rows) = do
  receipt ← establish setup call saved true
  parts ← lift (acknowledge_rows setup receipt.parts rows)
  result setup (with_parts receipt receipt.render_digest parts) call.part_index true
deliver_found setup call answers saved none = do
  receipt ← establish setup call saved false
  rendered ← rerender setup call receipt
  deliver_saved setup call answers rendered

unfoldable pub deliver_part : Setup → Call → Answers → Exec DeliveryResult
deliver_part setup call answers = do
  raise_when setup.dry_run value_error
  raise_when (not (ltb call.part_index call.part_count) || not (is_hex_of 64 call.render_digest))
      value_error
  saved ← read_delivery_receipt setup call.ref
  match ← lift (saved_keys_match setup call.ref saved)
  raise_when (not match) state_error
  rows ← lift (
      legacy_rows call.legacy_keys saved call.render_digest call.part_count
        call.ref.destination_channel_id answers.pages)
  deliver_found setup call answers saved rows
