-- ===== src/Repair/Tests.antt =====
-- The theorems on repairs at concrete inputs.
use mathlib.Core.List.{Memᴰ}
use discord_stoat_ferry.Prelude.{◌↔◌, refl, false, some, [], ◌∷◌}
use discord_stoat_ferry.Prelude.Result.{err}
use discord_stoat_ferry.Delivery.Receipt.{DeliveryRef, ordinary, state_error}
use discord_stoat_ferry.Delivery.Keys.{Setup, delivery_receipt_id}
use discord_stoat_ferry.Delivery.Retry.Evidence.{first_of}
use discord_stoat_ferry.Delivery.Retire.{Markers}
use discord_stoat_ferry.Messages.Merging.{FailedMessage}
use discord_stoat_ferry.Repair.{ChannelState, Save, clear_channel_state, begin_delivery_replacement}
use discord_stoat_ferry.Repair.Choices.{Candidate, DceExport, retry_message_candidates}
use discord_stoat_ferry.Repair.Channel.{Cleared, clear_channel_state-Cleared}
use discord_stoat_ferry.Repair.Replacement.{Began, begin_delivery_replacement-Began}
use discord_stoat_ferry.Repair.Candidates.{IsCandidate, retry_message_candidates_iff}

abbrev a_ref : DeliveryRef
a_ref = record {
  source_channel_id = "11";
  source_message_id = "450";
  destination_channel_id = "01ARZ3NDEKTSV4RRFFQ69G5FAV";
  family = ordinary;
  generation = "base";
}

abbrev a_failure : FailedMessage
a_failure = record {
  discord_msg_id = "450";
  stoat_channel_id = "01ARZ3NDEKTSV4RRFFQ69G5FAV";
  error = "";
  retry_count = 0;
  content_preview = "";
  delivery_ref = some a_ref;
}

abbrev a_state : ChannelState
a_state = record {
  high_water = ("11", "500") ∷ [];
  message_counts = ("11", 3) ∷ [];
  message_offsets = [];
  completed_ids = "11" ∷ [];
  message_map = ("450", "m") ∷ [];
  failed_messages = a_failure ∷ [];
  pending_pins = ("01ARZ3NDEKTSV4RRFFQ69G5FAV", "m") ∷ [];
  pending_reactions = [];
}

clear_channel_state-Cleared_example :
    Cleared a_state
      (clear_channel_state a_state "11"
        ("450" ∷ [])
        (some "01ARZ3NDEKTSV4RRFFQ69G5FAV")
        (some "01BX5ZZKBKACTAV9WEVGEMMVRZ"))
      "11"
      ("450" ∷ [])
      "01ARZ3NDEKTSV4RRFFQ69G5FAV"
      "01BX5ZZKBKACTAV9WEVGEMMVRZ"
clear_channel_state-Cleared_example =
    clear_channel_state-Cleared a_state "11" ("450" ∷ []) "01ARZ3NDEKTSV4RRFFQ69G5FAV"
      "01BX5ZZKBKACTAV9WEVGEMMVRZ" refl refl

abbrev a_setup : Setup
a_setup = record {
  dry_run = false;
  verify_uploads = false;
  namespace = "";
  service_digest = "";
  ref_hash = λ ref. "id";
  key_hash = λ namespace ref attempt index. "key";
  text_hash = λ receipt. "text";
}

-- A disk on which nothing can be saved.
abbrev full_disk : Save
full_disk markers = err state_error

abbrev no_markers : Markers
no_markers = record { bookkeeping = []; ready = []; replacements = [] }

begin_delivery_replacement-Began_example :
    (let (result, after) = begin_delivery_replacement a_setup full_disk "fresh" a_ref no_markers in
      Began full_disk "fresh"
        (first_of a_ref)
        (delivery_receipt_id a_setup (first_of a_ref))
        no_markers
        result
        after)
begin_delivery_replacement-Began_example =
    begin_delivery_replacement-Began a_setup full_disk "fresh" a_ref no_markers

abbrev an_export : DceExport
an_export = record {
  channel_id = "11";
  category_id = "";
  is_thread = false;
  parent_channel_name = "";
}

abbrev a_candidate : Candidate
a_candidate = record { export = an_export; message_id = "450"; ref = a_ref }

retry_message_candidates_iff_example :
    Memᴰ a_candidate (
      retry_message_candidates a_failure
        ((an_export, "450") ∷ [])
        (("11", "01ARZ3NDEKTSV4RRFFQ69G5FAV") ∷ [])
        [])
    ↔ IsCandidate a_failure
        ((an_export, "450") ∷ [])
        (("11", "01ARZ3NDEKTSV4RRFFQ69G5FAV") ∷ [])
        []
        a_candidate
retry_message_candidates_iff_example =
    retry_message_candidates_iff a_failure ((an_export, "450") ∷ [])
      (("11", "01ARZ3NDEKTSV4RRFFQ69G5FAV") ∷ []) [] a_candidate
