-- ===== src/Repair/Replacement.antt =====
-- core/engine.py: the identity of a replacement is saved before it is used.
use discord_stoat_ferry.Prelude.{
  ◌≡◌, refl, ◌∙◌, String, str_eq, eq_iff, if◌then◌else◌, Option, none, some, arith,
}
use discord_stoat_ferry.Prelude.Result.{Result, ok, err}
use discord_stoat_ferry.Prelude.Dict
use discord_stoat_ferry.Prelude.Dict.{Dict, get-put, get-remove}
use discord_stoat_ferry.Delivery.Receipt.{DeliveryRef, DeliveryError}
use discord_stoat_ferry.Delivery.Keys.{Setup, delivery_receipt_id}
use discord_stoat_ferry.Delivery.Retry.{at_base}
use discord_stoat_ferry.Delivery.Retry.Evidence.{first_of}
use discord_stoat_ferry.Delivery.Retire.{Markers, with_replacements}
use discord_stoat_ferry.Repair.{
  Save, saved, replace_under, replace_with, begin_delivery_replacement,
}

-- The same markers, whatever is looked up.
pub record SameMarkers (a b : Markers) : Type 0 where
  pub bookkeeping : a.bookkeeping ≡ b.bookkeeping
  pub ready : a.ready ≡ b.ready
  pub replacements : (key : String) → Dict.get a.replacements key ≡ Dict.get b.replacements key

-- The markers with the replacement of one delivery recorded, and all else as before.
pub record Noted (key fresh : String) (before marked : Markers) : Type 0 where
  pub bookkeeping : marked.bookkeeping ≡ before.bookkeeping
  pub ready : marked.ready ≡ before.ready
  pub replacements :
      (other : String)
      → Dict.get marked.replacements other
        ≡ (if str_eq key other then some fresh else Dict.get before.replacements other)

-- A delivery in a generation of its own.
abbrev pub in_generation : DeliveryRef → String → DeliveryRef
in_generation ref generation = record {
  source_channel_id = ref.source_channel_id;
  source_message_id = ref.source_message_id;
  destination_channel_id = ref.destination_channel_id;
  family = ref.family;
  generation = generation;
}

-- What a call comes to, where `key` is the receipt name of the delivery or its error: an error that
-- leaves the markers as they were, or the generation that was recorded for the delivery, or a new one
-- that was recorded for it when the markers were saved.
pub data Began (save : Save) (fresh : String) (base : DeliveryRef)
    (receipt_id : Result DeliveryError String) (before : Markers)
    (result : Result DeliveryError DeliveryRef) (after : Markers) : Type 0 where
  unnamed :
      (error : DeliveryError)
      → receipt_id ≡ err error
      → result ≡ err error
      → after ≡ before
      → Began save fresh base receipt_id before result after
  unsaved :
      (key : String) (marked : Markers) (error : DeliveryError)
      → receipt_id ≡ ok key
      → Dict.get before.replacements key ≡ none
      → Noted key fresh before marked
      → save marked ≡ err error
      → result ≡ err error
      → SameMarkers after before
      → Began save fresh base receipt_id before result after
  known :
      (key generation : String)
      → receipt_id ≡ ok key
      → Dict.get before.replacements key ≡ some generation
      → result ≡ ok (in_generation base generation)
      → after ≡ before
      → Began save fresh base receipt_id before result after
  noted :
      (key : String) (marked : Markers)
      → receipt_id ≡ ok key
      → Dict.get before.replacements key ≡ none
      → Noted key fresh before marked
      → save marked ≡ ok after
      → result ≡ ok (in_generation base fresh)
      → Began save fresh base receipt_id before result after

module _ (save : Save) (fresh : String) (base : DeliveryRef) (key : String) (state : Markers) where
  abbrev marked : Markers
  marked = with_replacements state (Dict.put state.replacements key fresh)

  marked-Noted : Noted key fresh state marked
  marked-Noted = record {
    bookkeeping = refl;
    ready = refl;
    replacements = λ other. get-put key other fresh state.replacements;
  }

  saved-Began :
      (outcome : Result DeliveryError Markers)
      → Dict.get state.replacements key ≡ none
      → save marked ≡ outcome
      → (let (result, after) = saved base key fresh marked outcome in
          Began save fresh base (ok key) state result after)
  saved-Began (ok after) missing h = noted key marked refl missing marked-Noted h refl
  saved-Began (err error) missing h =
      unsaved key marked error refl missing marked-Noted h refl (record {
        bookkeeping = refl;
        ready = refl;
        replacements = λ other.
            get-remove key other (Dict.put state.replacements key fresh)
            ∙ ground (arith, get-put key other fresh state.replacements, eq_iff key other, missing);
      })

  replace_under-Began :
      (found : Option String)
      → Dict.get state.replacements key ≡ found
      → (let (result, after) = replace_under save fresh base key found state in
          Began save fresh base (ok key) state result after)
  replace_under-Began (some generation) there = known key generation refl there refl refl
  replace_under-Began none missing = saved-Began (save marked) missing refl

replace_with-Began :
    (save : Save) (fresh : String) (base : DeliveryRef) (key : Result DeliveryError String)
    (state : Markers)
    → (let (result, after) = replace_with save fresh base key state in
        Began save fresh base key state result after)
replace_with-Began save fresh base (err error) state = unnamed error refl refl refl
replace_with-Began save fresh base (ok key) state =
    replace_under-Began save fresh base key state (Dict.get state.replacements key) refl

-- A replacement is on disk before it is used, and a failure leaves no trace. A call of
-- `begin_delivery_replacement` raises because the delivery has no receipt name, and changes nothing;
-- or it returns the generation that was recorded under the receipt name of the delivery's base, without
-- saving; or nothing was recorded there, and it saves the markers with the new generation recorded
-- under that name and all others as they were: it returns the new generation where that succeeds,
-- and raises where it does not, and then every marker is as it was.
pub begin_delivery_replacement-Began :
    (setup : Setup) (save : Save) (fresh : String) (ref : DeliveryRef) (state : Markers)
    → (let (result, after) = begin_delivery_replacement setup save fresh ref state in
        Began save fresh
          (first_of ref)
          (delivery_receipt_id setup (first_of ref))
          state
          result
          after)
unfolding begin_delivery_replacement
begin_delivery_replacement-Began setup save fresh ref state =
    replace_with-Began save fresh (at_base ref) (delivery_receipt_id setup (at_base ref)) state
