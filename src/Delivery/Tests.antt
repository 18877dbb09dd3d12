-- ===== src/Delivery/Tests.antt =====
-- Runs of the delivery code, and the theorems at concrete inputs.
use discord_stoat_ferry.Prelude.{
  List, ℕ, ◌≡◌, ◌≤◌, refl, ◌⊎◌, sym, subst, ◌∙◌, String, true, false, ◌&&◌, none, some, [], ◌∷◌,
  if◌then◌else◌, ◌==◌, arith, Bool-cases, inl, inr,
}
use discord_stoat_ferry.Prelude.Result.{ok}
use discord_stoat_ferry.Prelude.Json.{member, is_text, Value, object, field, end, string}
use discord_stoat_ferry.Prelude.Dict
use discord_stoat_ferry.Prelude.Json
use discord_stoat_ferry.Delivery.Receipt.{
  DeliveryReceipt, acknowledged, decode_delivery_receipt, decode_parts, decode_delivery_ref,
  fullmatch, codes, length_of, is_hex, is_word, is_ulid, is_digit, strip_prefix, is_among,
  is_stoat_id, is_stoat_file_id, DeliveryRef, ordinary, is_delivery_key,
}
use discord_stoat_ferry.Delivery.Legacy.{legacy_rows}
use discord_stoat_ferry.Delivery.History.{
  find_messages, find_from, scan_rows, scan_row, read_row, not_before, submitted_media,
  submitted_embeds,
}
use discord_stoat_ferry.Delivery.Keys.{
  delivery_receipt_id, delivery_key, new_parts, keys_match, Setup,
}
use discord_stoat_ferry.Delivery.Exec.{World}
use discord_stoat_ferry.Delivery.Files.{read_delivery_receipt, write_delivery_receipt, same_ref}
use discord_stoat_ferry.Delivery.Parts.{result, record_media, Call, Answers, DeliveryResult}
use discord_stoat_ferry.Delivery.Deliver.{
  deliver_part, establish, rerender, deliver_found, deliver_saved, deliver_open, dispatch,
  after_send, recover, pending_keys, prepare, discard, with_fresh,
}
use discord_stoat_ferry.Delivery.Send.{accepted, response, uncertain, api_request}
use discord_stoat_ferry.Delivery.Send.Retries.{Sends, api_request-Sends}
use discord_stoat_ferry.Delivery.Safety.{times_sent, AllNoted}
use discord_stoat_ferry.Delivery.Safety.Writing.{same_ref_lem}
use discord_stoat_ferry.Delivery.Safety.Sending.{NoCollision}
use discord_stoat_ferry.Delivery.Confirmed.{Confirmed}
use discord_stoat_ferry.Delivery.Confirmed.Calls.{deliver_part-Confirmed}
use discord_stoat_ferry.Delivery.History.Matches.{history}
use discord_stoat_ferry.Delivery.History.Finding.{Finds, find_messages-Finds}
use discord_stoat_ferry.Delivery.Safety.Rules.{Post}
use discord_stoat_ferry.Delivery.Retry.{FailedMessage, retry_delivery_context}
use discord_stoat_ferry.Delivery.Retry.Evidence.{Context, Refused, IsSelected}
use discord_stoat_ferry.Delivery.Retry.Contexts.{retry_delivery_context-Context}
use discord_stoat_ferry.Delivery.Safety.Writing.{Same}
use discord_stoat_ferry.Delivery.Retire.{
  consumed, clear_completed_replacement, Markers, save_deliveries, consumed_deliveries,
  retire_consumed_deliveries, retire_deliveries, drop_gone,
}
use discord_stoat_ferry.Delivery.Retire.Removal.{Finished, save_deliveries-Finished}
use discord_stoat_ferry.Delivery.Safety.Run.{
  Run, done, called, restarted, after_call, times_sent-Run, AllNoted-Run,
}

abbrev the_ref : DeliveryRef
the_ref = record {
  source_channel_id = "100";
  source_message_id = "200";
  destination_channel_id = "01HZX3V9QK8M7N6P5R4S3T2V1W";
  family = ordinary;
  generation = "base";
}

abbrev the_key : String
the_key = "ferry-v2-0123456789abcdef0123456789abcdef01234567"

abbrev the_digest : String
the_digest = "00112233445566778899aabbccddeeff00112233445566778899aabbccddeeff"

-- A hash that knows one identity.
abbrev one_key : String → DeliveryRef → ℕ → ℕ → String
one_key namespace ref attempt i =
    if same_ref ref the_ref && (attempt == 0 && i == 0) then the_key else ""

abbrev setup : Setup
setup = record {
  dry_run = false;
  verify_uploads = false;
  namespace = "0123456789abcdef0123456789abcdef";
  service_digest = "0123456789abcdef0123456789abcdef0123456789abcdef0123456789abcdef";
  ref_hash = λ ref. the_digest;
  key_hash = one_key;
  text_hash = λ receipt. receipt.render_digest;
}

empty_key : is_delivery_key "" ≡ false
unfolding is_delivery_key
empty_key = refl

one_key-known :
    (namespace : String) (ref : DeliveryRef) (attempt i : ℕ)
    → is_delivery_key (one_key namespace ref attempt i) ≡ true
    → (ref ≡ the_ref) × (attempt ≡ 0) × (i ≡ 0)
one_key-known namespace ref attempt i h =
    elim (Bool-cases (same_ref ref the_ref && (attempt == 0 && i == 0))) [
      | inl e ↦ (same_ref_lem ref the_ref (ground arith), ground arith, ground arith)
      | inr e ↦ absurd (no_key (one_key namespace ref attempt i) (rw e refl) h)
    ]
  where
    no_key : (k : String) → k ≡ "" → is_delivery_key k ≡ true → ⊥
    no_key k e h = cc (sym (subst (λ x. is_delivery_key x ≡ false) (sym e) empty_key), h)

setup-NoCollision : NoCollision setup
setup-NoCollision ref other attempt other_attempt i j good same =
    let (r, a, p) = one_key-known setup.namespace ref attempt i good in
    let (s, b, q) =
      one_key-known setup.namespace other other_attempt j
        (subst (λ k. is_delivery_key k ≡ true) same good) in
    (r ∙ sym s, a ∙ sym b, p ∙ sym q)

abbrev the_call : Call
the_call = record {
  ref = the_ref;
  part_index = 0;
  part_count = 1;
  render_digest = "0123456789abcdef0123456789abcdef0123456789abcdef0123456789abcdef";
  attachments = [];
  embeds = [];
  allow_rejected_retry = false;
  legacy_keys = [];
  recover_only = false;
}

-- The connection is lost, and the history cannot be read.
abbrev lost_answers : Answers
lost_answers = record { pages = []; permission = ok tt; outcome = uncertain }

abbrev the_message : Value
the_message = object (
    field "_id" (string "01HZX3V9QK8M7N6P5R4S3T2V1X") (
      field "channel" (string "01HZX3V9QK8M7N6P5R4S3T2V1W")
        (field "nonce" (string "ferry-v2-0123456789abcdef0123456789abcdef01234567") end)))

-- The message is in the history after all.
abbrev found_answers : Answers
found_answers = record {
  pages = some (the_message ∷ []) ∷ [];
  permission = ok tt;
  outcome = accepted the_message;
}

abbrev start : World
start = record { disk = []; fresh = []; log = []; faults = [] }

abbrev interrupted : World
interrupted = after_call setup the_call lost_answers start

abbrev resumed : World
resumed = after_call setup the_call found_answers (with_fresh [] interrupted)

interrupted_then_resumed : Run setup start resumed
interrupted_then_resumed =
    called the_call lost_answers (restarted (called the_call found_answers done))

times_sent-Run_example : times_sent resumed.log the_key ≤ 1
times_sent-Run_example =
    times_sent-Run setup setup-NoCollision start resumed refl interrupted_then_resumed the_key

AllNoted-Run_example : AllNoted resumed.log
AllNoted-Run_example =
    AllNoted-Run setup setup-NoCollision start resumed refl interrupted_then_resumed

api_request-Sends_example :
    (let (outcome, requests) =
        api_request none (response 429 none ∷ response 200 (some the_message) ∷ []) in
      Sends (response 429 none ∷ response 200 (some the_message) ∷ []) outcome requests)
api_request-Sends_example =
    api_request-Sends none (response 429 none ∷ response 200 (some the_message) ∷ [])

abbrev resumed_result : DeliveryResult
resumed_result = record {
  message_id = "01HZX3V9QK8M7N6P5R4S3T2V1X";
  autumn_ids = [];
  token = record {
    receipt_id = the_digest;
    receipt_digest = "0123456789abcdef0123456789abcdef0123456789abcdef0123456789abcdef";
  };
  fully_resolved = true;
  recovered = true;
  association_status = none;
}

the_result :
    deliver_part setup the_call found_answers (with_fresh [] interrupted)
    ≡ (ok resumed_result, resumed)
unfolding deliver_part read_delivery_receipt write_delivery_receipt delivery_receipt_id delivery_key
    new_parts keys_match decode_delivery_receipt decode_parts decode_delivery_ref fullmatch codes
    length_of is_hex is_word is_ulid is_digit is_delivery_key strip_prefix is_among is_stoat_id
    is_stoat_file_id legacy_rows establish rerender deliver_found deliver_saved deliver_open
    dispatch after_send recover pending_keys prepare result record_media find_messages find_from
    scan_rows scan_row read_row not_before submitted_media submitted_embeds discard same_ref member
    is_text Json.get Dict.get Dict.put
the_result = refl

deliver_part-Confirmed_example : Confirmed 0 resumed_result resumed
deliver_part-Confirmed_example =
    deliver_part-Confirmed setup the_call found_answers (with_fresh [] interrupted) resumed_result
      resumed the_result

the_matches :
    find_messages "01HZX3V9QK8M7N6P5R4S3T2V1W" (the_key ∷ []) (some (the_message ∷ []) ∷ [])
    ≡ ok ((the_key, the_message) ∷ [])
unfolding find_messages find_from scan_rows scan_row read_row is_text member Json.get Dict.get
    Dict.put is_among is_stoat_id fullmatch codes length_of is_ulid is_digit
the_matches = refl

find_messages-Finds_example :
    Finds "01HZX3V9QK8M7N6P5R4S3T2V1W"
      (the_key ∷ [])
      ((the_key, the_message) ∷ [])
      (history (some (the_message ∷ []) ∷ []))
find_messages-Finds_example =
    find_messages-Finds "01HZX3V9QK8M7N6P5R4S3T2V1W" (the_key ∷ []) (some (the_message ∷ []) ∷ [])
      ((the_key, the_message) ∷ []) the_matches

abbrev the_failure : FailedMessage
the_failure = record {
  discord_msg_id = "200";
  stoat_channel_id = "01HZX3V9QK8M7N6P5R4S3T2V1W";
  delivery_ref = none;
}

retry_delivery_context-Context_example :
    Post
      (λ (context : DeliveryRef × List String) after.
        IsSelected the_ref the_failure
        × Context setup the_ref none start context.0 context.1
        × Same start after)
      (λ after.
        ((IsSelected the_ref the_failure → ⊥) ⊎ Refused setup the_ref none start)
        × Same start after)
      (retry_delivery_context setup the_ref the_failure start)
retry_delivery_context-Context_example =
    retry_delivery_context-Context setup the_ref the_failure start

-- The delivery was finished and consumed, so that its receipt goes.
abbrev the_receipt : DeliveryReceipt
the_receipt = record {
  namespace = setup.namespace;
  service_digest = setup.service_digest;
  ref = the_ref;
  render_digest = the_call.render_digest;
  parts =
      record {
        index = 0;
        key = the_key;
        attempt = 0;
        status = acknowledged;
        message_id = "01HZX3V9QK8M7N6P5R4S3T2V1X";
        autumn_ids = [];
        association_status = none;
      }
      ∷ [];
}

abbrev consumed_markers : Markers
consumed_markers = record {
  bookkeeping = (the_digest, "01HZX3V9QK8M7N6P5R4S3T2V1X") ∷ [];
  ready = (the_digest, the_call.render_digest) ∷ [];
  replacements = [];
}

abbrev no_markers : Markers
no_markers = record { bookkeeping = []; ready = []; replacements = [] }

save_deliveries-Finished_example :
    (Dict.get [] the_digest ≡ some the_receipt) ⊎ Finished consumed_markers the_digest the_receipt
unfolding save_deliveries consumed_deliveries consumed retire_consumed_deliveries retire_deliveries
    clear_completed_replacement drop_gone Dict.get Dict.remove decode_delivery_receipt decode_parts
    decode_delivery_ref fullmatch codes length_of is_hex is_word is_ulid is_digit is_delivery_key
    strip_prefix is_among is_stoat_id delivery_receipt_id
save_deliveries-Finished_example =
    save_deliveries-Finished setup (λ id. false) consumed_markers no_markers
      ((the_digest, the_receipt) ∷ []) [] refl the_digest the_receipt refl
