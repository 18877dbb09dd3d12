-- ===== src/Messages/Merging.antt =====
-- migrator/messages.py: `_merge_channel_result`, which folds the result of one channel into the state
-- of the migration. Of the state and the result it has the members that the function touches.
pub mod Parents
use discord_stoat_ferry.Prelude.{
  ℕ, ◌+◌, String, str_eq, Bool, true, false, not, ◌&&◌, ◌||◌, Option, none, some, List, [], ◌∷◌,
  ◌++◌, if◌then◌else◌, any,
}
use discord_stoat_ferry.Prelude.Result.{Result, ok, err, ◌>>=◌}
use discord_stoat_ferry.Prelude.Dict
use discord_stoat_ferry.Prelude.Dict.{Dict}
use discord_stoat_ferry.Delivery.Receipt.{
  DeliveryRef, DeliveryFamily, ordinary, DeliveryToken, DeliveryError,
}
use discord_stoat_ferry.Delivery.Files.{same_family}
use discord_stoat_ferry.Delivery.Retire.{Markers, consume_delivery}
use discord_stoat_ferry.Messages.Outcomes.{DeliveryOutcomes, merge}

pub record FailedMessage : Type 0 where
  pub discord_msg_id : String
  pub stoat_channel_id : String
  pub error : String
  pub retry_count : ℕ
  pub content_preview : String
  pub delivery_ref : Option DeliveryRef

-- A warning or an error, as its members.
abbrev pub Note : Type 0
Note = Dict String

pub record Fidelity : Type 0 where
  pub embeds_total : ℕ
  pub embeds_dropped : ℕ
  pub replies_linked : ℕ
  pub replies_total : ℕ
  pub reactions_dropped : ℕ

pub record ChannelResult : Type 0 where
  pub channel_id : String
  pub warnings : List Note
  pub errors : List Note
  pub failed_messages : List FailedMessage
  pub message_map_updates : Dict String
  pub delivery_markers : Dict String
  pub delivery_tokens : Dict String
  pub resolved_deliveries : List (String × String)
  pub delivery_outcomes : DeliveryOutcomes
  pub pending_pins : List (String × String)
  pub pending_reactions : List Note
  pub attachments_uploaded : ℕ
  pub attachments_skipped : ℕ
  pub referenced_autumn_ids : List String
  pub messages_migrated : ℕ
  pub fidelity : Fidelity

pub record MigrationState : Type 0 where
  pub warnings : List Note
  pub errors : List Note
  pub failed_messages : List FailedMessage
  pub message_map : Dict String
  pub pending_pins : List (String × String)
  pub pending_reactions : List Note
  pub attachments_uploaded : ℕ
  pub attachments_skipped : ℕ
  pub referenced_autumn_ids : List String
  pub channel_message_counts : Dict ℕ
  pub fidelity : Fidelity
  pub markers : Markers

-- The loop over `message_map_updates`: a thread's own entry does not replace another.
unfoldable pub merge_map : String → Dict String → Dict String → Dict String
merge_map channel [] state = state
merge_map channel ((key, id) ∷ updates) state =
    merge_map channel updates
      (if str_eq key channel && Dict.has state key then state else Dict.put state key id)

-- `state.referenced_autumn_ids.update(…)`, a set as a list without repetitions
unfoldable pub add_all : List String → List String → List String
add_all [] ids = ids
add_all (id ∷ more) ids =
    add_all more (if any (λ other. str_eq other id) ids then ids else ids ++ id ∷ [])

abbrev pub count_of : Option ℕ → ℕ
count_of none = 0
count_of (some n) = n

abbrev pub add_messages : String → ℕ → Dict ℕ → Dict ℕ
add_messages channel n counts =
    if str_eq channel ""
    then counts
    else Dict.put counts channel (count_of (Dict.get counts channel) + n)

abbrev pub add_fidelity : Fidelity → Fidelity → Fidelity
add_fidelity a b = record {
  embeds_total = a.embeds_total + b.embeds_total;
  embeds_dropped = a.embeds_dropped + b.embeds_dropped;
  replies_linked = a.replies_linked + b.replies_linked;
  replies_total = a.replies_total + b.replies_total;
  reactions_dropped = a.reactions_dropped + b.reactions_dropped;
}

abbrev pub is_resolved : FailedMessage → List (String × String) → Bool
is_resolved failed [] = false
is_resolved failed ((message, channel) ∷ resolved) =
    (str_eq message failed.discord_msg_id && str_eq channel failed.stoat_channel_id)
    || is_resolved failed resolved

-- Whether the failure is one of the channel's own ordinary deliveries.
abbrev pub is_own : String → Option DeliveryRef → Bool
is_own channel none = true
is_own channel (some ref) = str_eq ref.source_channel_id channel && same_family ref.family ordinary

-- The failures that are still open.
unfoldable pub still_failed :
    String → List (String × String) → List FailedMessage → List FailedMessage
still_failed channel resolved [] = []
still_failed channel resolved (failed ∷ others) =
    let rest = still_failed channel resolved others in
    if is_resolved failed resolved && is_own channel failed.delivery_ref
    then rest
    else failed ∷ rest

-- `state.delivery_bookkeeping.update(…)`
unfoldable pub update : Dict String → Dict String → Dict String
update [] d = d
update ((key, value) ∷ more) d = update more (Dict.put d key value)

pub data MergeError : Type 0 where
  key_error : MergeError
  invalid : DeliveryError → MergeError

abbrev pub lift_error : Result DeliveryError Markers → Result MergeError Markers
lift_error (ok markers) = ok markers
lift_error (err error) = err (invalid error)

-- The loop over `delivery_tokens`.
unfoldable pub consume_all : Dict String → Dict String → Markers → Result MergeError Markers
consume_all markers [] state = ok state
consume_all markers ((id, digest) ∷ tokens) state = elim (Dict.get markers id) [
  | none ↦ err key_error
  | some first ↦ do
    consumed ←
        lift_error
          (consume_delivery state (record { receipt_id = id; receipt_digest = digest }) first)
    consume_all markers tokens consumed
]

abbrev pub merge_outcomes : Option DeliveryOutcomes → DeliveryOutcomes → Option DeliveryOutcomes
merge_outcomes none result = none
merge_outcomes (some outcomes) result = some (merge outcomes result)

abbrev pub booked : Dict String → Markers → Markers
booked new markers = record {
  bookkeeping = update new markers.bookkeeping;
  ready = markers.ready;
  replacements = markers.replacements;
}

-- The state with everything of the result but its tokens.
abbrev pub folded : MigrationState → ChannelResult → Markers → MigrationState
folded state result markers = record {
  warnings = state.warnings ++ result.warnings;
  errors = state.errors ++ result.errors;
  failed_messages =
      still_failed result.channel_id result.resolved_deliveries
        (state.failed_messages ++ result.failed_messages);
  message_map = merge_map result.channel_id result.message_map_updates state.message_map;
  pending_pins = state.pending_pins ++ result.pending_pins;
  pending_reactions = state.pending_reactions ++ result.pending_reactions;
  attachments_uploaded = state.attachments_uploaded + result.attachments_uploaded;
  attachments_skipped = state.attachments_skipped + result.attachments_skipped;
  referenced_autumn_ids = add_all result.referenced_autumn_ids state.referenced_autumn_ids;
  channel_message_counts =
      add_messages result.channel_id result.messages_migrated state.channel_message_counts;
  fidelity = add_fidelity state.fidelity result.fidelity;
  markers = markers;
}

-- `_merge_channel_result`; where it raises, the state that it leaves behind is not described
unfoldable pub merge_channel_result :
    MigrationState
    → ChannelResult
    → Option DeliveryOutcomes
    → Result MergeError (MigrationState × Option DeliveryOutcomes)
merge_channel_result state result outcomes = do
  markers ←
      consume_all result.delivery_markers result.delivery_tokens
        (booked result.delivery_markers state.markers)
  ok (folded state result markers, merge_outcomes outcomes result.delivery_outcomes)
