-- ===== src/Repair/Channel.antt =====
-- core/engine.py: nothing describes a channel that is gone after its state is cleared.
use discord_stoat_ferry.Prelude.{
  true, not, Option, Option-cases, ◌≡◌, refl, String, str_eq, eq_iff, Bool, false, none, some, List,
  [], ◌∷◌, arith, any, if◌then◌else◌, Bool-cases, inl, inr,
}
use discord_stoat_ferry.Prelude.Dict
use discord_stoat_ferry.Prelude.Dict.{Dict, get-remove}
use discord_stoat_ferry.Delivery.Receipt.{DeliveryRef}
use discord_stoat_ferry.Messages.Merging.{FailedMessage}
use discord_stoat_ferry.Repair.{
  ChannelState, move_ref, move_failure, discard, remove_all, move_failures, drop_pins,
  drop_reactions, clear_channel_state,
}

abbrev pub among : String → List String → Bool
among id ids = any (λ other. str_eq other id) ids

among-discard : (id : String) (ids : List String) → among id (discard id ids) ≡ false
unfolding discard
among-discard id [] = refl
among-discard id (other ∷ ids) = elim (Bool-cases (str_eq other id)) [
  | inl same ↦ rw same (among-discard id ids)
  | inr differs ↦ rw (differs, differs) (among-discard id ids)
]

get-remove_all :
    (key : String) (ids : List String) (d : Dict String)
    → Dict.get (remove_all ids d) key ≡ (if among key ids then none else Dict.get d key)
unfolding remove_all
get-remove_all key [] d = refl
get-remove_all key (id ∷ ids) d =
    ground (arith, get-remove_all key ids (Dict.remove d id), get-remove id key d)

among-discard_other :
    (key id : String) (ids : List String)
    → str_eq id key ≡ false
    → among key (discard id ids) ≡ among key ids
unfolding discard
among-discard_other key id [] differs = refl
among-discard_other key id (other ∷ ids) differs =
    ground (arith, among-discard_other key id ids differs, eq_iff other id)

-- A failure of the old channel goes, with its delivery, to the new one; another one stays.
abbrev pub RefMoves : String → Option DeliveryRef → Option DeliveryRef → Type 0
RefMoves new none after = after ≡ none
RefMoves new (some ref) after =
    (moved : DeliveryRef) × (after ≡ some moved)
    × (moved.source_channel_id ≡ ref.source_channel_id)
    × (moved.source_message_id ≡ ref.source_message_id)
    × (moved.family ≡ ref.family)
    × (moved.destination_channel_id ≡ new)
    × (moved.generation ≡ "base")

pub record Moves (new : String) (before after : FailedMessage) : Type 0 where
  pub channel : after.stoat_channel_id ≡ new
  pub message : after.discord_msg_id ≡ before.discord_msg_id
  pub error : after.error ≡ before.error
  pub retries : after.retry_count ≡ before.retry_count
  pub preview : after.content_preview ≡ before.content_preview
  pub delivery : RefMoves new before.delivery_ref after.delivery_ref

abbrev pub MovesIf : String → String → FailedMessage → FailedMessage → Type 0
MovesIf old new before after =
    (str_eq before.stoat_channel_id old ≡ true → Moves new before after)
    × (str_eq before.stoat_channel_id old ≡ false → after ≡ before)

-- Each failure in its place.
abbrev pub AllMove : String → String → List FailedMessage → List FailedMessage → Type 0
AllMove old new [] after = after ≡ []
AllMove old new (failure ∷ failures) after =
    (next : FailedMessage) × (rest : List FailedMessage) × (after ≡ next ∷ rest)
    × MovesIf old new failure next
    × AllMove old new failures rest

move_ref-RefMoves : (new : String) (ref : Option DeliveryRef) → RefMoves new ref (move_ref new ref)
move_ref-RefMoves new none = refl
move_ref-RefMoves new (some ref) = (_, refl, refl, refl, refl, refl, refl)

move_failures-AllMove :
    (old new : String) (failures : List FailedMessage)
    → AllMove old new failures (move_failures old new failures)
unfolding move_failures
move_failures-AllMove old new [] = refl
move_failures-AllMove old new (failure ∷ failures) = (
  if str_eq failure.stoat_channel_id old then move_failure new failure else failure,
  move_failures old new failures,
  refl,
  (λ same. rw same moved, λ other. rw other refl),
  move_failures-AllMove old new failures,
)
  where
    moved : Moves new failure (move_failure new failure)
    moved = record {
      channel = refl;
      message = refl;
      error = refl;
      retries = refl;
      preview = refl;
      delivery = move_ref-RefMoves new failure.delivery_ref;
    }

-- The elements that pass a test, in their order.
abbrev pub filter {ℓ} : {A : Type ℓ} → (A → Bool) → List A → List A
filter test [] = []
filter test (x ∷ xs) = if test x then x ∷ filter test xs else filter test xs

drop_pins-filter :
    (old : String) (pins : List (String × String))
    → drop_pins old pins ≡ filter (λ (pin : String × String). not (str_eq pin.0 old)) pins
unfolding drop_pins
drop_pins-filter old [] = refl
drop_pins-filter old ((channel, message) ∷ pins) = ground (arith, drop_pins-filter old pins)

-- Whether a reaction names a channel.
abbrev pub names : String → Dict String → Bool
names channel reaction = elim (Dict.get reaction "channel_id") [
  | none ↦ false
  | some other ↦ str_eq other channel
]

drop_reactions-filter :
    (old : String) (reactions : List (Dict String))
    → drop_reactions old reactions ≡ filter (λ (r : Dict String). not (names old r)) reactions
unfolding drop_reactions
drop_reactions-filter old [] = refl
drop_reactions-filter old (reaction ∷ reactions) =
    ground
      (arith, Option-cases (Dict.get reaction "channel_id"), drop_reactions-filter old reactions)

-- A map without a key, and otherwise as it was.
abbrev pub Without {ℓ} : {V : Type ℓ} → String → Dict V → Dict V → Type ℓ
Without {V} id before after =
    (key : String) → Dict.get after key ≡ (if str_eq id key then none else Dict.get before key)

-- What is left of a channel.
pub record Cleared (before after : ChannelState) (discord_id : String) (message_ids : List String)
    (old new : String) : Type 0 where
  pub marks : Without discord_id before.high_water after.high_water
  pub counts : Without discord_id before.message_counts after.message_counts
  pub offsets : Without discord_id before.message_offsets after.message_offsets
  pub not_completed : among discord_id after.completed_ids ≡ false
  pub completed :
      (key : String)
      → str_eq discord_id key ≡ false
      → among key after.completed_ids ≡ among key before.completed_ids
  pub messages :
      (key : String)
      → Dict.get after.message_map key
        ≡ (if among key message_ids then none else Dict.get before.message_map key)
  pub failures : AllMove old new before.failed_messages after.failed_messages
  pub pins :
      after.pending_pins
      ≡ filter (λ (pin : String × String). not (str_eq pin.0 old)) before.pending_pins
  pub reactions :
      after.pending_reactions
      ≡ filter (λ (r : Dict String). not (names old r)) before.pending_reactions

-- A channel that was recreated leaves nothing behind, and nothing else is lost. Where the identifiers of
-- the old and the new channel are given, after `_clear_channel_state` no mark, count, offset or
-- completion is kept for the channel, and those of the other channels are; exactly the listed messages
-- have left the message map; each failure of the old channel, and the delivery it records, now goes to
-- the new one under the base generation, with its message, error, count and preview, and every other
-- failure is as it was, in the same order; exactly the pins and reactions of the old channel are gone.
pub clear_channel_state-Cleared :
    (state : ChannelState) (discord_id : String) (message_ids : List String) (old new : String)
    → str_eq old "" ≡ false
    → str_eq new "" ≡ false
    → Cleared state
        (clear_channel_state state discord_id message_ids (some old) (some new))
        discord_id
        message_ids
        old
        new
unfolding clear_channel_state
clear_channel_state-Cleared state discord_id message_ids old new has_old has_new = record {
  marks = λ key. get-remove discord_id key state.high_water;
  counts = λ key. get-remove discord_id key state.message_counts;
  offsets = λ key. get-remove discord_id key state.message_offsets;
  not_completed = among-discard discord_id state.completed_ids;
  completed = λ key. among-discard_other key discord_id state.completed_ids;
  messages = λ key. get-remove_all key message_ids state.message_map;
  failures = rw (has_old, has_new) (move_failures-AllMove old new state.failed_messages);
  pins = rw has_old (drop_pins-filter old state.pending_pins);
  reactions = rw has_old (drop_reactions-filter old state.pending_reactions);
}
