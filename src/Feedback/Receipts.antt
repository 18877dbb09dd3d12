-- ===== src/Feedback/Receipts.antt =====
-- feedback_service/store.py: the claim of a receipt and its transitions, over the table `receipts`.
pub mod Claims
pub mod Transitions
use discord_stoat_ferry.Prelude.{
  ℕ, ◌+◌, ◌*◌, String, str_eq, Bool, true, false, not, ◌&&◌, Option, none, some, List, [], ◌∷◌,
  if◌then◌else◌, ltb, leb,
}
use discord_stoat_ferry.Prelude.Result.{Result, ok, err}
use discord_stoat_ferry.Prelude.Dict
use discord_stoat_ferry.Prelude.Dict.{Dict}

pub data ReceiptState : Type 0 where
  pending delivered failed absent : ReceiptState

pub data ClaimOutcome : Type 0 where
  created still_pending already_delivered conflict : ClaimOutcome

pub data DestinationKind : Type 0 where
  issue discussion : DestinationKind

pub data TransitionError : Type 0 where
  not_pending : TransitionError

pub record ReceiptRecord : Type 0 where
  pub content_hash : String
  pub state : ReceiptState
  pub destination_kind : DestinationKind
  pub destination_url : Option String
  pub created_at : ℕ
  pub updated_at : ℕ
  pub expires_at : ℕ
  pub audit_at : Option ℕ

pub record ReceiptClaim : Type 0 where
  pub outcome : ClaimOutcome
  pub receipt : ReceiptRecord

-- `_RECEIPT_RETENTION`, in seconds
abbrev pub receipt_retention : ℕ
receipt_retention = 7 * 86400

-- `DELETE FROM receipts WHERE expires_at <= ?`
unfoldable pub unexpired : ℕ → Dict ReceiptRecord → Dict ReceiptRecord
unexpired now [] = []
unexpired now ((id, receipt) ∷ table) =
    let rest = unexpired now table in
    if leb receipt.expires_at now then rest else (id, receipt) ∷ rest

abbrev pub new_receipt : String → DestinationKind → ℕ → ReceiptRecord
new_receipt content_hash kind now = record {
  content_hash = content_hash;
  state = pending;
  destination_kind = kind;
  destination_url = none;
  created_at = now;
  updated_at = now;
  expires_at = now + receipt_retention;
  audit_at = none;
}

abbrev pub with_hash : ReceiptRecord → String → ReceiptRecord
with_hash receipt content_hash = record {
  content_hash = content_hash;
  state = receipt.state;
  destination_kind = receipt.destination_kind;
  destination_url = receipt.destination_url;
  created_at = receipt.created_at;
  updated_at = receipt.updated_at;
  expires_at = receipt.expires_at;
  audit_at = receipt.audit_at;
}

abbrev pub claim : ClaimOutcome → ReceiptRecord → ReceiptClaim
claim outcome receipt = record { outcome = outcome; receipt = receipt }

-- A receipt with the claimed content: a failed or absent one becomes pending again.
abbrev pub claim_state :
    String
    → DestinationKind
    → ℕ
    → ReceiptRecord
    → ReceiptState
    → Dict ReceiptRecord
    → ReceiptClaim × Dict ReceiptRecord
claim_state id kind now receipt delivered table = (claim already_delivered receipt, table)
claim_state id kind now receipt pending table = (claim still_pending receipt, table)
claim_state id kind now receipt failed table = (
  claim created (new_receipt receipt.content_hash kind now),
  Dict.put table id (new_receipt receipt.content_hash kind now),
)
claim_state id kind now receipt absent table = (
  claim created (new_receipt receipt.content_hash kind now),
  Dict.put table id (new_receipt receipt.content_hash kind now),
)

abbrev pub is_legacy : Option String → String → Bool
is_legacy none content_hash = false
is_legacy (some legacy) content_hash = str_eq content_hash legacy

abbrev pub claim_known :
    String
    → String
    → DestinationKind
    → ℕ
    → Option String
    → Option ReceiptRecord
    → Dict ReceiptRecord
    → ReceiptClaim × Dict ReceiptRecord
claim_known id content_hash kind now legacy none table = (
  claim created (new_receipt content_hash kind now),
  Dict.put table id (new_receipt content_hash kind now),
)
claim_known id content_hash kind now legacy (some receipt) table =
    if str_eq receipt.content_hash content_hash
    then claim_state id kind now receipt receipt.state table
    else if is_legacy legacy receipt.content_hash
    then claim_state id kind now (with_hash receipt content_hash) receipt.state
        (Dict.put table id (with_hash receipt content_hash))
    else (claim conflict receipt, table)

-- `_claim_receipt_sync`
unfoldable pub claim_receipt :
    String
    → String
    → DestinationKind
    → ℕ
    → Option String
    → Dict ReceiptRecord
    → ReceiptClaim × Dict ReceiptRecord
claim_receipt id content_hash kind now legacy table =
    let kept = unexpired now table in
    claim_known id content_hash kind now legacy (Dict.get kept id) kept

abbrev pub with_state : ReceiptRecord → ReceiptState → ℕ → Option String → Bool → ReceiptRecord
with_state receipt state now url audit = record {
  content_hash = receipt.content_hash;
  state = state;
  destination_kind = receipt.destination_kind;
  destination_url = url;
  created_at = receipt.created_at;
  updated_at = now;
  expires_at = receipt.expires_at;
  audit_at = if audit then some now else none;
}

abbrev pub move :
    String
    → ReceiptState
    → ℕ
    → Option String
    → Bool
    → ReceiptRecord
    → ReceiptState
    → Dict ReceiptRecord
    → Result TransitionError (ReceiptRecord × Dict ReceiptRecord)
move id state now url audit receipt pending table = ok (
  with_state receipt state now url audit,
  Dict.put table id (with_state receipt state now url audit),
)
move id state now url audit receipt delivered table = err not_pending
move id state now url audit receipt failed table = err not_pending
move id state now url audit receipt absent table = err not_pending

abbrev pub move_known :
    String
    → ReceiptState
    → ℕ
    → Option String
    → Bool
    → Option ReceiptRecord
    → Dict ReceiptRecord
    → Result TransitionError (ReceiptRecord × Dict ReceiptRecord)
move_known id state now url audit none table = err not_pending
move_known id state now url audit (some receipt) table =
    move id state now url audit receipt receipt.state table

-- `_transition_sync`
unfoldable pub transition :
    String
    → ReceiptState
    → ℕ
    → Option String
    → Bool
    → Dict ReceiptRecord
    → Result TransitionError (ReceiptRecord × Dict ReceiptRecord)
transition id state now url audit table =
    move_known id state now url audit (Dict.get table id) table
