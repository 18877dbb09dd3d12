-- ===== src/Repair.antt =====
-- core/engine.py: what a repair or a retry does to the saved state of a channel and its deliveries.
pub mod Choices
pub mod Channel
pub mod Replacement
pub mod Routes
pub mod Agreeing
pub mod Candidates
mod Tests
use discord_stoat_ferry.Prelude.{
  ℕ, String, str_eq, Bool, true, false, not, ◌&&◌, ◌||◌, Option, none, some, List, [], ◌∷◌, ◌++◌,
  if◌then◌else◌,
}
use discord_stoat_ferry.Prelude.Result.{Result, ok, err}
use discord_stoat_ferry.Prelude.Dict
use discord_stoat_ferry.Prelude.Dict.{Dict}
use discord_stoat_ferry.Delivery.Receipt.{DeliveryRef, DeliveryError, ordinary, merged}
use discord_stoat_ferry.Delivery.Keys.{Setup, delivery_receipt_id}
use discord_stoat_ferry.Delivery.Files.{same_ref}
use discord_stoat_ferry.Delivery.Retry.{at_base}
use discord_stoat_ferry.Delivery.Retire.{Markers, with_replacements}
use discord_stoat_ferry.Messages.Merging.{FailedMessage}

-- The members of the migration state that describe a channel.
pub record ChannelState : Type 0 where
  pub high_water : Dict String
  pub message_counts : Dict ℕ
  pub message_offsets : Dict String
  pub completed_ids : List String
  pub message_map : Dict String
  pub failed_messages : List FailedMessage
  pub pending_pins : List (String × String)
  pub pending_reactions : List (Dict String)

-- `completed_channel_ids.discard(id)`
unfoldable pub discard : String → List String → List String
discard id [] = []
discard id (other ∷ ids) =
    let rest = discard id ids in if str_eq other id then rest else other ∷ rest

-- The loop over the message ids.
unfoldable pub remove_all : List String → Dict String → Dict String
remove_all [] d = d
remove_all (id ∷ ids) d = remove_all ids (Dict.remove d id)

abbrev pub move_ref : String → Option DeliveryRef → Option DeliveryRef
move_ref channel none = none
move_ref channel (some ref) = some (record {
  source_channel_id = ref.source_channel_id;
  source_message_id = ref.source_message_id;
  destination_channel_id = channel;
  family = ref.family;
  generation = "base";
})

abbrev pub move_failure : String → FailedMessage → FailedMessage
move_failure channel failed = record {
  discord_msg_id = failed.discord_msg_id;
  stoat_channel_id = channel;
  error = failed.error;
  retry_count = failed.retry_count;
  content_preview = failed.content_preview;
  delivery_ref = move_ref channel failed.delivery_ref;
}

-- The failures of the old channel go to the new one.
unfoldable pub move_failures : String → String → List FailedMessage → List FailedMessage
move_failures old new [] = []
move_failures old new (failed ∷ others) =
    (if str_eq failed.stoat_channel_id old then move_failure new failed else failed)
    ∷ move_failures old new others

unfoldable pub drop_pins : String → List (String × String) → List (String × String)
drop_pins old [] = []
drop_pins old ((channel, message) ∷ pins) =
    let rest = drop_pins old pins in if str_eq channel old then rest else (channel, message) ∷ rest

abbrev pub is_channel : Option String → String → Bool
is_channel none old = false
is_channel (some channel) old = str_eq channel old

unfoldable pub drop_reactions : String → List (Dict String) → List (Dict String)
drop_reactions old [] = []
drop_reactions old (reaction ∷ reactions) =
    let rest = drop_reactions old reactions in
    if is_channel (Dict.get reaction "channel_id") old then rest else reaction ∷ rest

-- Whether an optional text is truthy.
abbrev pub given : Option String → Bool
given none = false
given (some text) = not (str_eq text "")

abbrev pub text_of : Option String → String
text_of none = ""
text_of (some text) = text

-- `_clear_channel_state`
unfoldable pub clear_channel_state :
    ChannelState → String → List String → Option String → Option String → ChannelState
clear_channel_state state discord_id message_ids old new = record {
  high_water = Dict.remove state.high_water discord_id;
  message_counts = Dict.remove state.message_counts discord_id;
  message_offsets = Dict.remove state.message_offsets discord_id;
  completed_ids = discard discord_id state.completed_ids;
  message_map = remove_all message_ids state.message_map;
  failed_messages =
      if given old && given new
      then move_failures (text_of old) (text_of new) state.failed_messages
      else state.failed_messages;
  pending_pins =
      if given old then drop_pins (text_of old) state.pending_pins else state.pending_pins;
  pending_reactions =
      if given old
      then drop_reactions (text_of old) state.pending_reactions
      else state.pending_reactions;
}

abbrev pub with_generation : DeliveryRef → String → DeliveryRef
with_generation ref generation = record {
  source_channel_id = ref.source_channel_id;
  source_message_id = ref.source_message_id;
  destination_channel_id = ref.destination_channel_id;
  family = ref.family;
  generation = generation;
}

-- The state that `save_state` leaves where it returns, or its error.
abbrev pub Save : Type 0
Save = Markers → Result DeliveryError Markers

abbrev pub saved :
    DeliveryRef
    → String
    → String
    → Markers
    → Result DeliveryError Markers
    → Result DeliveryError DeliveryRef × Markers
saved base key generation marked (ok after) = (ok (with_generation base generation), after)
saved base key generation marked (err error) =
    (err error, with_replacements marked (Dict.remove marked.replacements key))

abbrev pub replace_under :
    Save
    → String
    → DeliveryRef
    → String
    → Option String
    → Markers
    → Result DeliveryError DeliveryRef × Markers
replace_under save fresh base key (some generation) state =
    (ok (with_generation base generation), state)
replace_under save fresh base key none state =
    let marked = with_replacements state (Dict.put state.replacements key fresh) in
    saved base key fresh marked (save marked)

abbrev pub replace_with :
    Save
    → String
    → DeliveryRef
    → Result DeliveryError String
    → Markers
    → Result DeliveryError DeliveryRef × Markers
replace_with save fresh base (err error) state = (err error, state)
replace_with save fresh base (ok key) state =
    replace_under save fresh base key (Dict.get state.replacements key) state

-- `begin_delivery_replacement`, with the identifier that `uuid4` gives
unfoldable pub begin_delivery_replacement :
    Setup → Save → String → DeliveryRef → Markers → Result DeliveryError DeliveryRef × Markers
begin_delivery_replacement setup save fresh ref state =
    replace_with save fresh (at_base ref) (delivery_receipt_id setup (at_base ref)) state
