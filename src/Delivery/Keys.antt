-- ===== src/Delivery/Keys.antt =====
-- migrator/delivery.py and state.py: the keys and file names made of a delivery's identity.
-- The hashes, and the text they are taken of, are parameters.
use discord_stoat_ferry.Prelude.{
  ℕ, suc, zero, ◌+◌, String, str_eq, Bool, true, false, not, none, List, [], ◌∷◌,
}
use discord_stoat_ferry.Prelude.Result.{Result, ok, raise_if, ◌>>=◌, ◌>>◌}
use discord_stoat_ferry.Delivery.Receipt.{
  DeliveryRef, DeliveryPart, prepared, DeliveryReceipt, DeliveryError, value_error,
  decode_delivery_ref, is_hex_of,
}

-- The configuration and the bound identity of a migration, with the hashes: of a reference, of a
-- key's identity (with its prefix), and of a receipt's text.
pub record Setup : Type 0 where
  pub dry_run : Bool
  pub verify_uploads : Bool
  pub namespace : String
  pub service_digest : String
  pub ref_hash : DeliveryRef → String
  pub key_hash : String → DeliveryRef → ℕ → ℕ → String
  pub text_hash : DeliveryReceipt → String

-- `delivery_receipt_id`
unfoldable pub delivery_receipt_id : Setup → DeliveryRef → Result DeliveryError String
delivery_receipt_id setup ref = do
  validated ← decode_delivery_ref ref
  ok (setup.ref_hash validated)

-- `delivery_key`
unfoldable pub delivery_key : Setup → DeliveryRef → ℕ → ℕ → Result DeliveryError String
unfolding delivery_receipt_id
delivery_key setup ref attempt part_index = do
  id ← delivery_receipt_id setup ref
  raise_if (not (is_hex_of 32 setup.namespace)) value_error
  ok (setup.key_hash setup.namespace ref attempt part_index)

abbrev pub new_part : ℕ → String → ℕ → DeliveryPart
new_part index key attempt = record {
  index = index;
  key = key;
  attempt = attempt;
  status = prepared;
  message_id = "";
  autumn_ids = [];
  association_status = none;
}

-- `[DeliveryPart(index, delivery_key(…), attempt) for index in range(part_count)]`, from `index` on
unfoldable pub new_parts :
    Setup → DeliveryRef → ℕ → ℕ → ℕ → Result DeliveryError (List DeliveryPart)
new_parts setup ref attempt index zero = ok []
new_parts setup ref attempt index (suc left) = do
  key ← delivery_key setup ref attempt index
  parts ← new_parts setup ref attempt (index + 1) left
  ok (new_part index key attempt ∷ parts)

-- Each saved key is the key of its part's attempt.
unfoldable pub keys_match : Setup → DeliveryRef → List DeliveryPart → Result DeliveryError Bool
keys_match setup ref [] = ok true
keys_match setup ref (part ∷ parts) = do
  key ← delivery_key setup ref part.attempt part.index
  elim (str_eq part.key key) [ true ↦ keys_match setup ref parts | false ↦ ok false ]
