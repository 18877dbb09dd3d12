-- ===== src/Delivery/Retire.antt =====
-- state.py: consumed deliveries, and the removal of their receipt files by `save_state`.
pub mod Removal
use discord_stoat_ferry.Prelude.{
  ◌≡◌, String, str_eq, Bool, true, false, not, ◌&&◌, ◌||◌, Option, none, some, List, [], ◌∷◌, all,
  if◌then◌else◌,
}
use discord_stoat_ferry.Prelude.Result.{Result, ok, err, raise_if, ◌>>=◌, ◌>>◌}
use discord_stoat_ferry.Prelude.Dict
use discord_stoat_ferry.Prelude.Dict.{Dict}
use discord_stoat_ferry.Delivery.Receipt.{
  DeliveryRef, DeliveryPart, DeliveryReceipt, DeliveryToken, DeliveryError, state_error,
  decode_delivery_receipt, is_hex_of, is_stoat_id,
}
use discord_stoat_ferry.Delivery.Keys.{Setup, delivery_receipt_id}
use discord_stoat_ferry.Delivery.Files.{is_bound}
use discord_stoat_ferry.Delivery.Legacy.{is_acknowledged}
use discord_stoat_ferry.Delivery.Retry.{at_base}

-- The markers of the migration state that concern deliveries.
pub record Markers : Type 0 where
  pub bookkeeping : Dict String
  pub ready : Dict String
  pub replacements : Dict String

-- `consume_delivery`
unfoldable pub consume_delivery : Markers → DeliveryToken → String → Result DeliveryError Markers
consume_delivery state token first_message_id = do
  raise_if (not (is_hex_of 64 token.receipt_id)) state_error
  raise_if (not (is_hex_of 64 token.receipt_digest)) state_error
  raise_if (not (is_stoat_id first_message_id)) state_error
  ok (record {
    bookkeeping = Dict.put state.bookkeeping token.receipt_id first_message_id;
    ready = Dict.put state.ready token.receipt_id token.receipt_digest;
    replacements = state.replacements;
  })

pub record Retirement : Type 0 where
  pub token : DeliveryToken
  pub receipt : DeliveryReceipt

abbrev pub first_message : List DeliveryPart → String
first_message [] = ""
first_message (part ∷ parts) = part.message_id

-- `bookkeeping.get(receipt_id) == receipt.parts[0].message_id`
abbrev pub is_booked : Option String → String → Bool
is_booked none message_id = false
is_booked (some booked) message_id = str_eq booked message_id

abbrev pub retirement : String → String → DeliveryReceipt → Retirement
retirement id digest receipt = record {
  token = record { receipt_id = id; receipt_digest = digest };
  receipt = receipt;
}

-- What one marker asks for: nothing, or the removal of the receipt.
unfoldable pub consumed :
    Setup
    → Markers
    → String
    → String
    → Option DeliveryReceipt
    → Result DeliveryError (Option Retirement)
consumed setup state id digest none = ok none
consumed setup state id digest (some saved) =
    if not (str_eq (setup.text_hash saved) digest) then ok none else do
      receipt ← decode_delivery_receipt saved
      own_id ← delivery_receipt_id setup receipt.ref
      raise_if (not (str_eq own_id id && is_bound setup receipt)) state_error
      ok (
          if all is_acknowledged receipt.parts
            && is_booked (Dict.get state.bookkeeping id) (first_message receipt.parts)
          then some (retirement id digest receipt)
          else none)

abbrev pub with_retirement : Option Retirement → List Retirement → List Retirement
with_retirement none rest = rest
with_retirement (some one) rest = one ∷ rest

-- `_consumed_deliveries`, over the entries of `delivery_ready`
unfoldable pub consumed_deliveries :
    Setup → Markers → Dict DeliveryReceipt → Dict String → Result DeliveryError (List Retirement)
consumed_deliveries setup state disk [] = ok []
consumed_deliveries setup state disk ((id, digest) ∷ ready) = do
  raise_if (not (is_hex_of 64 digest)) state_error
  raise_if (not (is_hex_of 64 id)) state_error
  one ← consumed setup state id digest (Dict.get disk id)
  rest ← consumed_deliveries setup state disk ready
  ok (with_retirement one rest)

-- `_clear_completed_replacement`
unfoldable pub clear_completed_replacement :
    Setup → Dict String → DeliveryReceipt → Result DeliveryError (Dict String)
clear_completed_replacement setup replacements receipt = do
  base ← delivery_receipt_id setup (at_base receipt.ref)
  ok (
      if is_booked (Dict.get replacements base) receipt.ref.generation
      then Dict.remove replacements base
      else replacements)

abbrev pub without_marker : Markers → String → Markers
without_marker state id = record {
  bookkeeping = Dict.remove state.bookkeeping id;
  ready = Dict.remove state.ready id;
  replacements = state.replacements;
}

abbrev pub with_replacements : Markers → Dict String → Markers
with_replacements state replacements = record {
  bookkeeping = state.bookkeeping;
  ready = state.ready;
  replacements = replacements;
}

-- The removal of one file, where it is there and still has its digest. A file that is gone leaves
-- only its markers, and a file that cannot be removed leaves all as it is.
abbrev pub remove_file :
    Setup
    → Retirement
    → Bool
    → Markers
    → Dict DeliveryReceipt
    → Option DeliveryReceipt
    → Markers × Dict DeliveryReceipt
remove_file setup one stuck state disk none = (without_marker state one.token.receipt_id, disk)
remove_file setup one stuck state disk (some saved) =
    if not (str_eq (setup.text_hash saved) one.token.receipt_digest) || stuck
    then (state, disk)
    else (without_marker state one.token.receipt_id, Dict.remove disk one.token.receipt_id)

-- The loop of `_retire_consumed_deliveries`; `stuck` tells which files cannot be removed.
unfoldable pub retire_deliveries :
    Setup
    → (String → Bool)
    → List Retirement
    → Markers
    → Dict DeliveryReceipt
    → Result DeliveryError (Markers × Dict DeliveryReceipt)
retire_deliveries setup stuck [] state disk = ok (state, disk)
retire_deliveries setup stuck (one ∷ retirements) state disk = do
  replacements ← clear_completed_replacement setup state.replacements one.receipt
  let (next, left) =
      remove_file setup one (stuck one.token.receipt_id) (with_replacements state replacements) disk
        (Dict.get disk one.token.receipt_id)
  retire_deliveries setup stuck retirements next left

-- The markers whose files are gone.
unfoldable pub drop_gone : Dict DeliveryReceipt → Dict String → Markers → Markers
drop_gone disk [] state = state
drop_gone disk ((id, message_id) ∷ markers) state =
    drop_gone disk markers
      (if Dict.has disk id || not (is_hex_of 64 id) then state else without_marker state id)

-- `_retire_consumed_deliveries`
unfoldable pub retire_consumed_deliveries :
    Setup
    → (String → Bool)
    → List Retirement
    → Markers
    → Dict DeliveryReceipt
    → Result DeliveryError (Markers × Dict DeliveryReceipt)
retire_consumed_deliveries setup stuck retirements state disk = do
  (next, left) ← retire_deliveries setup stuck retirements state disk
  ok (drop_gone left next.bookkeeping next, left)

-- The part of `save_state` that concerns deliveries.
unfoldable pub save_deliveries :
    Setup
    → (String → Bool)
    → Markers
    → Dict DeliveryReceipt
    → Result DeliveryError (Markers × Dict DeliveryReceipt)
save_deliveries setup stuck state disk = do
  retirements ← consumed_deliveries setup state disk state.ready
  retire_consumed_deliveries setup stuck retirements state disk
