-- ===== src/Delivery/Retry.antt =====
-- migrator/delivery.py: `retry_delivery_context`, for a message that failed before.
pub mod Evidence
pub mod Contexts
use Prim.Native.String.{◌++◌ as append}
use discord_stoat_ferry.Prelude.{
  ◌≡◌, refl, sym, ◌∙◌, ap, String, str_eq, Bool, true, false, not, ◌&&◌, Option, none, some, List,
  [], ◌∷◌, inl, inr, ◌⊎◌,
}
use discord_stoat_ferry.Prelude.Dict
use discord_stoat_ferry.Delivery.Receipt.{
  DeliveryFamily, ordinary, merged, header, separator, forum_index, DeliveryRef, DeliveryReceipt,
  unresolved,
}
use discord_stoat_ferry.Delivery.Keys.{Setup}
use discord_stoat_ferry.Delivery.Exec.{World, Exec, pure, raise, raise_when, ◌>>=◌, ◌>>◌}
use discord_stoat_ferry.Delivery.Files.{read_delivery_receipt, same_ref}
use discord_stoat_ferry.Delivery.Safety.Rules.{Post, continue-Post, raise_when-Post, Post-map}
use discord_stoat_ferry.Delivery.Safety.Writing.{Same, Read, Read-Post}

pub record FailedMessage : Type 0 where
  pub discord_msg_id : String
  pub stoat_channel_id : String
  pub delivery_ref : Option DeliveryRef

-- `replace(ref, generation="base")`
abbrev pub at_base : DeliveryRef → DeliveryRef
at_base ref = record {
  source_channel_id = ref.source_channel_id;
  source_message_id = ref.source_message_id;
  destination_channel_id = ref.destination_channel_id;
  family = ref.family;
  generation = "base";
}

abbrev pub legacy_prefix : DeliveryFamily → Option String
legacy_prefix ordinary = some "ferry"
legacy_prefix merged = some "ferry-merge"
legacy_prefix header = none
legacy_prefix separator = none
legacy_prefix forum_index = none

-- The keys of older versions, for the families that they had.
abbrev pub legacy_context : DeliveryRef → Option String → Exec (DeliveryRef × List String)
legacy_context ref none = raise unresolved
legacy_context ref (some prefix) =
    let key = append (append prefix "-") ref.source_message_id in
    pure (ref, key ∷ append (append key "-") ref.destination_channel_id ∷ [])

-- The attempt that the failure recorded must be there.
abbrev pub preserved : DeliveryRef → Option DeliveryReceipt → Exec (DeliveryRef × List String)
preserved recorded none = raise unresolved
preserved recorded (some receipt) = pure (recorded, [])

abbrev pub preserved_or_legacy :
    DeliveryRef → Option DeliveryReceipt → Exec (DeliveryRef × List String)
preserved_or_legacy ref none = legacy_context ref (legacy_prefix ref.family)
preserved_or_legacy ref (some receipt) = pure (ref, [])

abbrev pub context_of :
    Setup → DeliveryRef → Option DeliveryRef → Bool → Exec (DeliveryRef × List String)
context_of setup ref (some recorded) unbound = do
  raise_when (not (same_ref (at_base recorded) (at_base ref))) unresolved
  raise_when unbound unresolved
  saved ← read_delivery_receipt setup recorded
  preserved recorded saved
context_of setup ref none true = legacy_context ref (legacy_prefix ref.family)
context_of setup ref none false = do
  saved ← read_delivery_receipt setup ref
  preserved_or_legacy ref saved

unfoldable pub retry_delivery_context :
    Setup → DeliveryRef → FailedMessage → Exec (DeliveryRef × List String)
retry_delivery_context setup ref failure = do
  raise_when
      (not (
        str_eq failure.discord_msg_id ref.source_message_id
        && str_eq failure.stoat_channel_id ref.destination_channel_id))
      unresolved
  context_of setup ref failure.delivery_ref (str_eq setup.namespace "")
