-- ===== src/Feedback/Store.antt =====
-- feedback_service/store.py: the database of the service, three tables, and the operations on it.
-- `Feedback.Receipts` and `Feedback.Quota` have those that concern one table. A time is a number of seconds.
pub mod Sealed
pub mod Admission
pub mod Contacts
pub mod Rows
pub mod Runs
mod Tests
use discord_stoat_ferry.Prelude.{
  ℕ, ◌+◌, ◌-◌, ◌*◌, String, str_eq, Bool, true, false, not, ◌&&◌, Option, none, some, List, [], ◌∷◌,
  length, if◌then◌else◌, leb,
}
use discord_stoat_ferry.Prelude.Result.{Result, ok, err}
use discord_stoat_ferry.Prelude.Dict
use discord_stoat_ferry.Prelude.Dict.{Dict}
use discord_stoat_ferry.Feedback.Receipts.{
  ReceiptState, pending, delivered, failed, absent, created, still_pending, already_delivered,
  conflict, DestinationKind, TransitionError, ReceiptRecord, ReceiptClaim, unexpired, new_receipt,
  with_hash, claim, is_legacy, claim_receipt, transition,
}
use discord_stoat_ferry.Feedback.Quota.{
  EventKind, RateEvent, QuotaDecision, cleanup_expired, claim_report_quota, claim_quota,
}

pub record Contact : Type 0 where
  pub ciphertext : String
  pub created_at : ℕ
  pub expires_at : ℕ

pub record Store : Type 0 where
  pub receipts : Dict ReceiptRecord
  pub contacts : Dict Contact
  pub events : List RateEvent

abbrev pub with_receipts : Store → Dict ReceiptRecord → Store
with_receipts store receipts = record {
  receipts = receipts;
  contacts = store.contacts;
  events = store.events;
}

-- `_CONTACT_RETENTION`, in seconds
abbrev pub contact_retention : ℕ
contact_retention = 30 * 86400

-- `DELETE FROM contacts WHERE expires_at <= ?`
unfoldable pub unexpired_contacts : ℕ → Dict Contact → Dict Contact
unexpired_contacts now [] = []
unexpired_contacts now ((id, contact) ∷ table) =
    let rest = unexpired_contacts now table in
    if leb contact.expires_at now then rest else (id, contact) ∷ rest

-- What `_cleanup_expired` leaves.
unfoldable pub cleanup : ℕ → Store → Store
cleanup now store = record {
  receipts = unexpired now store.receipts;
  contacts = unexpired_contacts now store.contacts;
  events = cleanup_expired now store.events;
}

-- `_expire_sync`: the number of rows that `_cleanup_expired` deletes
unfoldable pub expire : ℕ → Store → ℕ × Store
expire now store =
    let kept = cleanup now store in
    (
      (length store.events - length kept.events)
          + (length store.contacts - length kept.contacts)
          + (length store.receipts - length kept.receipts),
      kept,
    )

pub record ReceiptAdmission : Type 0 where
  pub claim : Option ReceiptClaim
  pub quota : Option QuotaDecision

abbrev pub admitted : ReceiptClaim → ReceiptAdmission
admitted claimed = record { claim = some claimed; quota = none }

abbrev pub refused : QuotaDecision → ReceiptAdmission
refused decision = record { claim = none; quota = some decision }

-- A receipt that is created, or pending again.
abbrev pub open_receipt : String → String → DestinationKind → ℕ → Store → ReceiptAdmission × Store
open_receipt id content_hash kind now store = (
  admitted (claim created (new_receipt content_hash kind now)),
  with_receipts store (Dict.put store.receipts id (new_receipt content_hash kind now)),
)

abbrev pub open_if :
    Bool
    → QuotaDecision
    → List RateEvent
    → String
    → String
    → DestinationKind
    → ℕ
    → Store
    → ReceiptAdmission × Store
open_if false decision events id content_hash kind now store = (refused decision, store)
open_if true decision events id content_hash kind now store =
    open_receipt id content_hash kind now
      (record { receipts = store.receipts; contacts = store.contacts; events = events })

-- A receipt that is opened if the quota allows a report.
abbrev pub open_within :
    QuotaDecision × List RateEvent
    → String
    → String
    → DestinationKind
    → ℕ
    → Store
    → ReceiptAdmission × Store
open_within (decision, events) id content_hash kind now store =
    open_if decision.allowed decision events id content_hash kind now store

-- A receipt of the content that is already settled or on its way.
abbrev pub answer :
    Bool
    → String
    → String
    → ReceiptRecord
    → ReceiptClaim
    → ReceiptClaim
    → Store
    → ReceiptAdmission × Store
answer false id content_hash receipt same renewed store = (admitted same, store)
answer true id content_hash receipt same renewed store = (
  admitted renewed,
  with_receipts store (Dict.put store.receipts id (with_hash receipt content_hash)),
)

abbrev pub admit_state :
    String
    → String
    → DestinationKind
    → String
    → ℕ
    → Bool
    → ReceiptRecord
    → ReceiptState
    → Store
    → ReceiptAdmission × Store
admit_state id content_hash kind source now legacy receipt failed store =
    open_within (claim_report_quota source now store.events) id content_hash kind now store
admit_state id content_hash kind source now legacy receipt absent store =
    open_receipt id content_hash kind now store
admit_state id content_hash kind source now legacy receipt delivered store =
    answer legacy id content_hash receipt (claim already_delivered receipt)
      (claim already_delivered (with_hash receipt content_hash)) store
admit_state id content_hash kind source now legacy receipt pending store =
    answer legacy id content_hash receipt (claim still_pending receipt)
      (claim still_pending (with_hash receipt content_hash)) store

abbrev pub admit_known :
    String
    → String
    → DestinationKind
    → String
    → ℕ
    → Option String
    → Option ReceiptRecord
    → Store
    → ReceiptAdmission × Store
admit_known id content_hash kind source now legacy none store =
    open_within (claim_report_quota source now store.events) id content_hash kind now store
admit_known id content_hash kind source now legacy (some receipt) store =
    let same = str_eq receipt.content_hash content_hash in
    let legacy_match = not same && is_legacy legacy receipt.content_hash in
    if not same && not legacy_match
    then (admitted (claim conflict receipt), store)
    else admit_state id content_hash kind source now legacy_match receipt receipt.state store

-- `_admit_feedback_delivery_sync`
unfoldable pub admit :
    String
    → String
    → DestinationKind
    → String
    → ℕ
    → Option String
    → Store
    → ReceiptAdmission × Store
admit id content_hash kind source now legacy store =
    let kept = cleanup now store in
    admit_known id content_hash kind source now legacy (Dict.get kept.receipts id) kept

abbrev pub Marked : Type 0
Marked = Result TransitionError (ReceiptRecord × Dict ReceiptRecord)

-- `mark_delivered`
unfoldable pub mark_delivered : String → String → ℕ → Dict ReceiptRecord → Marked
mark_delivered id url now table = transition id delivered now (some url) false table

-- `mark_failed`
unfoldable pub mark_failed : String → ℕ → Dict ReceiptRecord → Marked
mark_failed id now table = transition id failed now none false table

-- `mark_absent`
unfoldable pub mark_absent : String → ℕ → Dict ReceiptRecord → Marked
mark_absent id now table = transition id absent now none true table

-- `resolve_destination`
unfoldable pub resolve_destination : String → String → ℕ → Dict ReceiptRecord → Marked
resolve_destination id url now table = transition id delivered now (some url) true table
