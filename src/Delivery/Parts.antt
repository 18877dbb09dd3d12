-- ===== src/Delivery/Parts.antt =====
-- migrator/delivery.py: the arguments and the result of `deliver_part`, and its updates of a part.
use discord_stoat_ferry.Prelude.{
  ℕ, String, str_eq, Bool, true, false, not, ◌&&◌, Option, none, some, List, [], ◌∷◌, if◌then◌else◌,
  all, get_elem?, set,
}
use discord_stoat_ferry.Prelude.Result.{Result, ok, err}
use discord_stoat_ferry.Prelude.Json.{Value}
use discord_stoat_ferry.Delivery.Receipt.{
  DeliveryRef, DeliveryPart, PartStatus, AssociationStatus, matched, mismatch, unavailable,
  observed_only, DeliveryReceipt, DeliveryToken, DeliveryError, other,
}
use discord_stoat_ferry.Delivery.Keys.{Setup}
use discord_stoat_ferry.Delivery.Exec.{Exec, pure, raise, ◌>>=◌}
use discord_stoat_ferry.Delivery.Files.{write_delivery_receipt}
use discord_stoat_ferry.Delivery.Legacy.{is_acknowledged}
use discord_stoat_ferry.Delivery.History.{Page, history_media}
use discord_stoat_ferry.Delivery.Send.{Outcome}

-- The arguments of a call that have an effect on what is saved.
pub record Call : Type 0 where
  pub ref : DeliveryRef
  pub part_index : ℕ
  pub part_count : ℕ
  pub render_digest : String
  pub attachments : List String
  pub embeds : List Value
  pub allow_rejected_retry : Bool
  pub legacy_keys : List String
  pub recover_only : Bool

-- What the outside answers during a call: the pages of the history, whether the permission runtime
-- lets the channel be written, and the outcome of the message request.
pub record Answers : Type 0 where
  pub pages : List Page
  pub permission : Result DeliveryError (Unit {0})
  pub outcome : Outcome

pub record DeliveryResult : Type 0 where
  pub message_id : String
  pub autumn_ids : List String
  pub token : DeliveryToken
  pub fully_resolved : Bool
  pub recovered : Bool
  pub association_status : Option AssociationStatus

-- The updates of a part.
abbrev pub with_status : DeliveryPart → PartStatus → String → DeliveryPart
with_status part status message_id = record {
  index = part.index;
  key = part.key;
  attempt = part.attempt;
  status = status;
  message_id = message_id;
  autumn_ids = part.autumn_ids;
  association_status = part.association_status;
}

abbrev pub with_media : DeliveryPart → List String → Option AssociationStatus → DeliveryPart
with_media part autumn_ids association_status = record {
  index = part.index;
  key = part.key;
  attempt = part.attempt;
  status = part.status;
  message_id = part.message_id;
  autumn_ids = autumn_ids;
  association_status = association_status;
}

abbrev pub with_parts : DeliveryReceipt → String → List DeliveryPart → DeliveryReceipt
with_parts receipt render_digest parts = record {
  namespace = receipt.namespace;
  service_digest = receipt.service_digest;
  ref = receipt.ref;
  render_digest = render_digest;
  parts = parts;
}

abbrev pub with_part : DeliveryReceipt → ℕ → DeliveryPart → DeliveryReceipt
with_part receipt i part = with_parts receipt receipt.render_digest (set receipt.parts i part)

pub same_ids : List String → List String → Bool
same_ids [] [] = true
same_ids [] (d ∷ ds) = false
same_ids (c ∷ cs) [] = false
same_ids (c ∷ cs) (d ∷ ds) = str_eq c d && same_ids cs ds

-- `_record_observed_media` of the media in a row, or `unavailable` where they cannot be read
abbrev compared : Option (List String) → List String → AssociationStatus
compared none observed = observed_only
compared (some expected) observed = if same_ids expected observed then matched else mismatch

abbrev observe :
    DeliveryPart → Option (List String) → Result DeliveryError (List String) → DeliveryPart
observe part expected (ok observed) = with_media part observed (some (compared expected observed))
observe part expected (err e) = with_media part part.autumn_ids (some unavailable)

unfoldable pub record_media : Bool → DeliveryPart → Option (List String) → Value → DeliveryPart
unfolding same_ids
record_media true part expected row = observe part expected (history_media row)
record_media false part expected row = part

abbrev pub part_at : DeliveryReceipt → ℕ → Exec DeliveryPart
part_at receipt i = elim (get_elem? receipt.parts i) [ none ↦ raise other | some part ↦ pure part ]

abbrev is_compared : Option AssociationStatus → Bool
is_compared none = false
is_compared (some unavailable) = false
is_compared (some matched) = true
is_compared (some mismatch) = true
is_compared (some observed_only) = true

abbrev result_of : Setup → DeliveryReceipt → DeliveryPart → DeliveryToken → Bool → DeliveryResult
result_of setup receipt part token recovered = record {
  message_id = part.message_id;
  autumn_ids =
      if setup.verify_uploads && not (is_compared part.association_status)
      then []
      else part.autumn_ids;
  token = token;
  fully_resolved = all is_acknowledged receipt.parts;
  recovered = recovered;
  association_status = part.association_status;
}

-- `_result`
unfoldable pub result : Setup → DeliveryReceipt → ℕ → Bool → Exec DeliveryResult
result setup receipt part_index recovered = do
  token ← write_delivery_receipt setup receipt
  part ← part_at receipt part_index
  pure (result_of setup receipt part token recovered)
