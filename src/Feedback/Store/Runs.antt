-- ===== src/Feedback/Store/Runs.antt =====
-- feedback_service/store.py: what holds of the tables after any operations.
use discord_stoat_ferry.Prelude.{
  ℕ, ◌≡◌, refl, sym, subst, String, str_eq, Bool, true, false, Option, none, some, [], Bool-cases,
  Option-cases, inl, inr, if◌then◌else◌,
}
use discord_stoat_ferry.Prelude.Result.{ok, err}
use discord_stoat_ferry.Prelude.Dict
use discord_stoat_ferry.Prelude.Dict.{Dict}
use discord_stoat_ferry.Feedback.Receipts.{
  ReceiptState, pending, delivered, failed, absent, DestinationKind, ReceiptRecord, unexpired,
  new_receipt, with_hash, with_state, is_legacy, claim_state, claim_known, claim_receipt, move,
  transition,
}
use discord_stoat_ferry.Feedback.Quota.{EventKind, claim_quota}
use discord_stoat_ferry.Feedback.Store.{
  Store, with_receipts, cleanup, expire, admit, Marked, mark_delivered, mark_failed, mark_absent,
  resolve_destination,
}
use discord_stoat_ferry.Feedback.Store.Sealed.{store_ciphertext, get_ciphertext, delete_contact}
use discord_stoat_ferry.Feedback.Store.Admission.{admit-Admits}
use discord_stoat_ferry.Feedback.Store.Rows.{
  Rows, Rows-put, Rows-remove, Rows-get, Fits, IsConsistent, IsKept, IsSound, Rows-unexpired,
  cleanup-IsSound,
}

fresh :
    (content_hash : String) (kind : DestinationKind) (now : ℕ)
    → IsConsistent (new_receipt content_hash kind now)
fresh content_hash kind now = record { fits = (refl, refl); retention = refl }

claim_state-Rows :
    (id : String) (kind : DestinationKind) (now : ℕ) (receipt : ReceiptRecord)
    (state : ReceiptState) (table : Dict ReceiptRecord)
    → Rows IsConsistent table
    → Rows IsConsistent (claim_state id kind now receipt state table).1
claim_state-Rows id kind now receipt delivered table rows = rows
claim_state-Rows id kind now receipt pending table rows = rows
claim_state-Rows id kind now receipt failed table rows =
    Rows-put IsConsistent id (new_receipt receipt.content_hash kind now) table
      (fresh receipt.content_hash kind now) rows
claim_state-Rows id kind now receipt absent table rows =
    Rows-put IsConsistent id (new_receipt receipt.content_hash kind now) table
      (fresh receipt.content_hash kind now) rows

claim_known-Rows :
    (id content_hash : String) (kind : DestinationKind) (now : ℕ) (legacy : Option String)
    (known : Option ReceiptRecord) (table : Dict ReceiptRecord)
    → Dict.get table id ≡ known
    → Rows IsConsistent table
    → Rows IsConsistent (claim_known id content_hash kind now legacy known table).1
claim_known-Rows id content_hash kind now legacy none table at rows =
    Rows-put IsConsistent id (new_receipt content_hash kind now) table (fresh content_hash kind now)
      rows
claim_known-Rows id content_hash kind now legacy (some receipt) table at rows =
    elim (Bool-cases (str_eq receipt.content_hash content_hash)) [
      | inl same ↦ rw same (claim_state-Rows id kind now receipt receipt.state table rows)
      | inr differs ↦ elim (Bool-cases (is_legacy legacy receipt.content_hash)) [
        | inl old ↦
            let held = Rows-get IsConsistent id receipt table rows at in
            rw (differs, old)
              (claim_state-Rows id kind now (with_hash receipt content_hash) receipt.state
                (Dict.put table id (with_hash receipt content_hash))
                (Rows-put IsConsistent id (with_hash receipt content_hash) table
                  (record { fits = held.fits; retention = held.retention }) rows))
        | inr other ↦ rw (differs, other) rows
      ]
    ]

claim_receipt-Rows :
    (id content_hash : String) (kind : DestinationKind) (now : ℕ) (legacy : Option String)
    (table : Dict ReceiptRecord)
    → Rows IsConsistent table
    → Rows IsConsistent (claim_receipt id content_hash kind now legacy table).1
unfolding claim_receipt
claim_receipt-Rows id content_hash kind now legacy table rows =
    claim_known-Rows id content_hash kind now legacy (Dict.get (unexpired now table) id)
      (unexpired now table) refl (Rows-unexpired now table rows)

-- What a transition leaves, whether or not it is made.
abbrev pub after_mark : Dict ReceiptRecord → Marked → Dict ReceiptRecord
after_mark table (ok (receipt, after)) = after
after_mark table (err error) = table

move-Rows :
    (id : String) (state : ReceiptState) (now : ℕ) (url : Option String) (audit : Bool)
    (receipt : ReceiptRecord) (current : ReceiptState) (table : Dict ReceiptRecord)
    → Fits state url (if audit then some now else none)
    → Dict.get table id ≡ some receipt
    → Rows IsConsistent table
    → Rows IsConsistent (after_mark table (move id state now url audit receipt current table))
move-Rows id state now url audit receipt pending table fits at rows =
    Rows-put IsConsistent id (with_state receipt state now url audit) table
      (record {
        fits = fits;
        retention = (Rows-get IsConsistent id receipt table rows at).retention;
      })
      rows
move-Rows id state now url audit receipt delivered table fits at rows = rows
move-Rows id state now url audit receipt failed table fits at rows = rows
move-Rows id state now url audit receipt absent table fits at rows = rows

transition-Rows :
    (id : String) (state : ReceiptState) (now : ℕ) (url : Option String) (audit : Bool)
    (table : Dict ReceiptRecord)
    → Fits state url (if audit then some now else none)
    → Rows IsConsistent table
    → Rows IsConsistent (after_mark table (transition id state now url audit table))
unfolding transition
transition-Rows id state now url audit table fits rows = elim (Option-cases (Dict.get table id)) [
  | inl missing ↦ rw missing rows
  | inr (receipt, at) ↦
      rw at (move-Rows id state now url audit receipt receipt.state table fits at rows)
]

-- The operations of the store that write.
pub data Op : Type 0 where
  claimed : String → String → DestinationKind → Option String → Op
  admitted : String → String → DestinationKind → String → Option String → Op
  delivered_to : String → String → Op
  marked_failed marked_absent : String → Op
  resolved_to : String → String → Op
  quota_claimed : EventKind → String → Op
  expired : Op
  contact_stored : String → String → Op
  contact_read : String → Op
  contact_deleted : String → Op

-- The store after one of them at a time.
unfoldable pub apply : ℕ → Op → Store → Store
apply now (claimed id content_hash kind legacy) store =
    let kept = cleanup now store in
    with_receipts kept (claim_receipt id content_hash kind now legacy store.receipts).1
apply now (admitted id content_hash kind source legacy) store =
    (admit id content_hash kind source now legacy store).1
apply now (delivered_to id url) store =
    with_receipts store (after_mark store.receipts (mark_delivered id url now store.receipts))
apply now (marked_failed id) store =
    with_receipts store (after_mark store.receipts (mark_failed id now store.receipts))
apply now (marked_absent id) store =
    with_receipts store (after_mark store.receipts (mark_absent id now store.receipts))
apply now (resolved_to id url) store =
    with_receipts store (after_mark store.receipts (resolve_destination id url now store.receipts))
apply now (quota_claimed kind source) store =
    let kept = cleanup now store in
    record {
      receipts = kept.receipts;
      contacts = kept.contacts;
      events = (claim_quota kind source now store.events).1;
    }
apply now expired store = (expire now store).1
apply now (contact_stored id ciphertext) store = store_ciphertext id ciphertext now store
apply now (contact_read id) store = (get_ciphertext id now store).1
apply now (contact_deleted id) store = (delete_contact id store).1

-- Stores that are reached from an empty one.
pub data Reached : Store → Type 0 where
  at_start : Reached (record { receipts = []; contacts = []; events = [] })
  after : {store : Store} (now : ℕ) (op : Op) → Reached store → Reached (apply now op store)

admit-IsSound :
    (now : ℕ) (id content_hash : String) (kind : DestinationKind) (source : String)
    (legacy : Option String) (store : Store)
    → IsSound store
    → IsSound (admit id content_hash kind source now legacy store).1
admit-IsSound now id content_hash kind source legacy store sound =
    elim (admit-Admits id content_hash kind source now legacy store) [
      | inl taken ↦ record {
        receipts =
            subst (Rows IsConsistent) (sym taken.same_receipts)
              (claim_receipt-Rows id content_hash kind now legacy store.receipts sound.receipts);
        contacts =
            subst (Rows IsKept) (sym taken.same_contacts)
              (cleanup-IsSound now store sound).contacts;
      }
      | inr away ↦ subst IsSound (sym away.unchanged) (cleanup-IsSound now store sound)
    ]

marked-IsSound :
    (store : Store) (receipts : Dict ReceiptRecord)
    → IsSound store
    → Rows IsConsistent receipts
    → IsSound (with_receipts store receipts)
marked-IsSound store receipts sound rows = record { receipts = rows; contacts = sound.contacts }

apply-IsSound : (now : ℕ) (op : Op) (store : Store) → IsSound store → IsSound (apply now op store)
unfolding apply mark_delivered mark_failed mark_absent resolve_destination expire store_ciphertext
    get_ciphertext delete_contact
apply-IsSound now (claimed id content_hash kind legacy) store sound =
    marked-IsSound (cleanup now store)
      (claim_receipt id content_hash kind now legacy store.receipts).1
      (cleanup-IsSound now store sound)
      (claim_receipt-Rows id content_hash kind now legacy store.receipts sound.receipts)
apply-IsSound now (admitted id content_hash kind source legacy) store sound =
    admit-IsSound now id content_hash kind source legacy store sound
apply-IsSound now (delivered_to id url) store sound =
    marked-IsSound store _ sound
      (transition-Rows id delivered now (some url) false store.receipts (λ e. cc) sound.receipts)
apply-IsSound now (marked_failed id) store sound =
    marked-IsSound store _ sound
      (transition-Rows id failed now none false store.receipts refl sound.receipts)
apply-IsSound now (marked_absent id) store sound =
    marked-IsSound store _ sound
      (transition-Rows id absent now none true store.receipts refl sound.receipts)
apply-IsSound now (resolved_to id url) store sound =
    marked-IsSound store _ sound
      (transition-Rows id delivered now (some url) true store.receipts (λ e. cc) sound.receipts)
apply-IsSound now (quota_claimed kind source) store sound =
    let kept = cleanup-IsSound now store sound in
    record { receipts = kept.receipts; contacts = kept.contacts }
apply-IsSound now expired store sound = cleanup-IsSound now store sound
apply-IsSound now (contact_stored id ciphertext) store sound =
    let kept = cleanup-IsSound now store sound in
    record {
      receipts = kept.receipts;
      contacts = Rows-put IsKept id _ (cleanup now store).contacts refl kept.contacts;
    }
apply-IsSound now (contact_read id) store sound = cleanup-IsSound now store sound
apply-IsSound now (contact_deleted id) store sound = record {
  receipts = sound.receipts;
  contacts = Rows-remove IsKept id store.contacts sound.contacts;
}

-- The tables stay consistent. In every store that the operations reach from an empty one, at whatever
-- times, a receipt has a destination exactly if it is delivered, a pending one has no audit, every
-- receipt expires seven days after its creation, and every contact thirty days after its own.
pub Reached-IsSound : {store : Store} → Reached store → IsSound store
Reached-IsSound at_start = record { receipts = tt; contacts = tt }
Reached-IsSound (after {store} now op reached) =
    apply-IsSound now op store (Reached-IsSound reached)
