-- ===== src/Delivery/Retry/Evidence.antt =====
-- migrator/delivery.py: the evidence by which `retry_delivery_context` goes.
use Prim.Native.String.{◌++◌ as append}
use discord_stoat_ferry.Prelude.{
  ◌≡◌, String, str_eq, true, false, Option, none, some, List, [], ◌∷◌, ◌⊎◌,
}
use discord_stoat_ferry.Prelude.Result.{err}
use discord_stoat_ferry.Prelude.Dict
use discord_stoat_ferry.Delivery.Receipt.{
  DeliveryFamily, ordinary, merged, header, separator, forum_index, DeliveryRef, DeliveryReceipt,
  DeliveryError,
}
use discord_stoat_ferry.Delivery.Keys.{Setup}
use discord_stoat_ferry.Delivery.Exec.{World}
use discord_stoat_ferry.Delivery.Files.{read_delivery_receipt, same_ref}
use discord_stoat_ferry.Delivery.Retry.{FailedMessage}

-- A delivery as it was first made, before any replacement.
abbrev pub first_of : DeliveryRef → DeliveryRef
first_of ref = record {
  source_channel_id = ref.source_channel_id;
  source_message_id = ref.source_message_id;
  destination_channel_id = ref.destination_channel_id;
  family = ref.family;
  generation = "base";
}

-- The deliveries that had keys in older versions.
abbrev pub HadKeys : DeliveryFamily → String → Type 0
HadKeys family prefix =
    ((family ≡ ordinary) × (prefix ≡ "ferry")) ⊎ ((family ≡ merged) × (prefix ≡ "ferry-merge"))

-- The receipt of a delivery is on disk, and says so.
abbrev pub IsPreserved : Setup → World → DeliveryRef → Type 0
IsPreserved setup w ref =
    (receipt : DeliveryReceipt) × (Dict.get w.disk (setup.ref_hash ref) ≡ some receipt)
    × (receipt.ref ≡ ref)

-- A retry goes by the attempt that the failure recorded, which must be preserved and of the selected
-- delivery; or, if none was recorded, by the receipt of the selected delivery; or, if there is none or
-- the migration has no namespace, by the keys of older versions.
pub data Context (setup : Setup) (ref : DeliveryRef) (noted : Option DeliveryRef) (w : World)
    : DeliveryRef → List String → Type 0 where
  by_recorded :
      (recorded : DeliveryRef)
      → noted ≡ some recorded
      → first_of recorded ≡ first_of ref
      → str_eq setup.namespace "" ≡ false
      → IsPreserved setup w recorded
      → Context setup ref noted w recorded []
  by_receipt :
      noted ≡ none
      → str_eq setup.namespace "" ≡ false
      → IsPreserved setup w ref
      → Context setup ref noted w ref []
  by_legacy_keys :
      (prefix : String)
      → noted ≡ none
      → (str_eq setup.namespace "" ≡ true) ⊎ (Dict.get w.disk (setup.ref_hash ref) ≡ none)
      → HadKeys ref.family prefix
      → Context setup ref noted w ref (
          append (append prefix "-") ref.source_message_id
          ∷ append
              (append (append (append prefix "-") ref.source_message_id) "-")
              ref.destination_channel_id
          ∷ [])

-- Why there is no context once the message and the channel agree: the recorded attempt is of another
-- delivery, there is no namespace or no receipt for it, a receipt cannot be read, or none is preserved and the
-- family never had other keys.
pub data Refused (setup : Setup) (ref : DeliveryRef) (noted : Option DeliveryRef) (w : World)
    : Type 0 where
  other_source :
      (recorded : DeliveryRef)
      → noted ≡ some recorded
      → same_ref (first_of recorded) (first_of ref) ≡ false
      → Refused setup ref noted w
  no_namespace :
      (recorded : DeliveryRef)
      → noted ≡ some recorded
      → str_eq setup.namespace "" ≡ true
      → Refused setup ref noted w
  not_preserved :
      (recorded : DeliveryRef)
      → noted ≡ some recorded
      → Dict.get w.disk (setup.ref_hash recorded) ≡ none
      → Refused setup ref noted w
  unreadable :
      (chosen : DeliveryRef) (error : DeliveryError) (after : World)
      → (noted ≡ some chosen) ⊎ ((noted ≡ none) × (chosen ≡ ref))
      → read_delivery_receipt setup chosen w ≡ (err error, after)
      → Refused setup ref noted w
  no_legacy_keys :
      noted ≡ none
      → (str_eq setup.namespace "" ≡ true) ⊎ (Dict.get w.disk (setup.ref_hash ref) ≡ none)
      → (ref.family ≡ header) ⊎ ((ref.family ≡ separator) ⊎ (ref.family ≡ forum_index))
      → Refused setup ref noted w

-- A selected delivery is of the message that failed, and to the channel where it failed.
pub record IsSelected (ref : DeliveryRef) (failure : FailedMessage) : Type 0 where
  pub message : failure.discord_msg_id ≡ ref.source_message_id
  pub channel : failure.stoat_channel_id ≡ ref.destination_channel_id
