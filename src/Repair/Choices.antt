-- ===== src/Repair/Choices.antt =====
-- core/engine.py: the deliveries that `_retry_message_candidates` relates a failure to.
use discord_stoat_ferry.Prelude.{
  String, str_eq, Bool, true, false, Option, none, some, List, [], ◌∷◌, ◌++◌, if◌then◌else◌,
}
use discord_stoat_ferry.Prelude.Dict
use discord_stoat_ferry.Prelude.Dict.{Dict}
use discord_stoat_ferry.Delivery.Receipt.{DeliveryRef, ordinary, merged}
use discord_stoat_ferry.Delivery.Files.{same_ref}
use discord_stoat_ferry.Delivery.Retry.{at_base}
use discord_stoat_ferry.Messages.Merging.{FailedMessage}

-- Of an export and a message, what the search for retries reads.
pub record DceExport : Type 0 where
  pub channel_id : String
  pub category_id : String
  pub is_thread : Bool
  pub parent_channel_name : String

pub record Candidate : Type 0 where
  pub export : DceExport
  pub message_id : String
  pub ref : DeliveryRef

abbrev pub base_ref : String → String → String → Bool → DeliveryRef
base_ref source message destination is_merged = record {
  source_channel_id = source;
  source_message_id = message;
  destination_channel_id = destination;
  family = if is_merged then merged else ordinary;
  generation = "base";
}

-- The channel into which a thread is merged.
abbrev pub parent_of : DceExport → Dict String → Dict String → Option String
parent_of export channel_map parent_names =
    if str_eq export.category_id ""
    then Dict.get parent_names export.parent_channel_name
    else Dict.get channel_map export.category_id

-- The ref of the message itself, where its channel became the failure's.
abbrev pub own_refs : FailedMessage → DceExport → String → Option String → List DeliveryRef
own_refs failure export message none = []
own_refs failure export message (some channel) =
    if str_eq channel failure.stoat_channel_id
    then base_ref export.channel_id message failure.stoat_channel_id false ∷ []
    else []

-- The ref of the message of a thread in the parent, where that is the failure's channel.
abbrev pub merged_refs : FailedMessage → DceExport → String → Option String → List DeliveryRef
merged_refs failure export message none = []
merged_refs failure export message (some parent) =
    if str_eq parent failure.stoat_channel_id
    then base_ref export.channel_id message parent true ∷ []
    else []

-- `refs`
abbrev pub refs_of :
    FailedMessage → DceExport → String → Dict String → Dict String → List DeliveryRef
refs_of failure export message channel_map parent_names =
    own_refs failure export message (Dict.get channel_map export.channel_id)
    ++ (if export.is_thread
        then merged_refs failure export message (parent_of export channel_map parent_names)
        else [])

-- The refs that agree with the recorded one, which then stands for them.
abbrev pub agreeing : Option DeliveryRef → DceExport → String → List DeliveryRef → List Candidate
agreeing recorded export message [] = []
agreeing none export message (ref ∷ refs) =
    record { export = export; message_id = message; ref = ref } ∷ agreeing none export message refs
agreeing (some recorded) export message (ref ∷ refs) =
    let rest = agreeing (some recorded) export message refs in
    if same_ref (at_base recorded) ref
    then record { export = export; message_id = message; ref = recorded } ∷ rest
    else rest

-- `_retry_message_candidates`
unfoldable pub retry_message_candidates :
    FailedMessage → List (DceExport × String) → Dict String → Dict String → List Candidate
retry_message_candidates failure [] channel_map parent_names = []
retry_message_candidates failure ((export, message) ∷ found) channel_map parent_names =
    agreeing failure.delivery_ref export message
      (refs_of failure export message channel_map parent_names)
    ++ retry_message_candidates failure found channel_map parent_names
