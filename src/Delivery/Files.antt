-- ===== src/Delivery/Files.antt =====
-- state.py: the receipt files, read and written.
use discord_stoat_ferry.Prelude.{
  String, str_eq, Bool, true, false, not, ◌&&◌, Option, none, some, List, [], ◌∷◌, if◌then◌else◌,
}
use discord_stoat_ferry.Prelude.Result.{ok, err}
use discord_stoat_ferry.Prelude.Dict
use discord_stoat_ferry.Delivery.Receipt.{
  DeliveryFamily, ordinary, merged, header, separator, forum_index, DeliveryRef, DeliveryReceipt,
  DeliveryToken, state_error, decode_delivery_receipt,
}
use discord_stoat_ferry.Delivery.Keys.{Setup, delivery_receipt_id}
use discord_stoat_ferry.Delivery.Exec.{
  World, Exec, pure, lift, raise_when, gets, modify, ◌>>=◌, ◌>>◌,
}

abbrev pub next_fault : List Bool → Bool
next_fault [] = false
next_fault (fault ∷ faults) = fault

abbrev pub later_faults : List Bool → List Bool
later_faults [] = []
later_faults (fault ∷ faults) = faults

abbrev pub with_faults : World → List Bool → World
with_faults w faults = record { disk = w.disk; fresh = w.fresh; log = w.log; faults = faults }

-- An operation on the disk may fail.
abbrev touch_disk : Exec (Unit {0})
touch_disk w = (
  (if next_fault w.faults then err state_error else ok tt),
  with_faults w (later_faults w.faults),
)

abbrev with_receipt : World → String → DeliveryReceipt → World
with_receipt w id receipt = record {
  disk = Dict.put w.disk id receipt;
  fresh = w.fresh;
  log = w.log;
  faults = w.faults;
}

abbrev pub is_bound : Setup → DeliveryReceipt → Bool
is_bound setup receipt =
    str_eq receipt.namespace setup.namespace && str_eq receipt.service_digest setup.service_digest

-- `write_delivery_receipt`
unfoldable pub write_delivery_receipt : Setup → DeliveryReceipt → Exec DeliveryToken
write_delivery_receipt setup receipt = do
  validated ← lift (decode_delivery_receipt receipt)
  raise_when (not (is_bound setup validated)) state_error
  id ← lift (delivery_receipt_id setup validated.ref)
  touch_disk
  modify (λ w. with_receipt w id validated)
  pure (record { receipt_id = id; receipt_digest = setup.text_hash validated })

abbrev pub same_family : DeliveryFamily → DeliveryFamily → Bool
same_family ordinary ordinary = true
same_family merged merged = true
same_family header header = true
same_family separator separator = true
same_family forum_index forum_index = true
same_family a b = false

unfoldable pub same_ref : DeliveryRef → DeliveryRef → Bool
same_ref a b =
    ((str_eq a.source_channel_id b.source_channel_id
        && str_eq a.source_message_id b.source_message_id)
      && (str_eq a.destination_channel_id b.destination_channel_id
          && same_family a.family b.family))
    && str_eq a.generation b.generation

-- A receipt that is there must decode and belong to the migration and the reference.
abbrev pub checked : Setup → DeliveryRef → Option DeliveryReceipt → Exec (Option DeliveryReceipt)
checked setup ref none = pure none
checked setup ref (some saved) = do
  receipt ← lift (decode_delivery_receipt saved)
  raise_when (not (is_bound setup receipt && same_ref receipt.ref ref)) state_error
  pure (some receipt)

-- `read_delivery_receipt`
unfoldable pub read_delivery_receipt : Setup → DeliveryRef → Exec (Option DeliveryReceipt)
read_delivery_receipt setup ref = do
  id ← lift (delivery_receipt_id setup ref)
  touch_disk
  saved ← gets (λ w. Dict.get w.disk id)
  checked setup ref saved
