-- ===== src/Feedback/Receipts/Claims.antt =====
-- What a claim tells its caller of the receipt that is saved.
use discord_stoat_ferry.Prelude.{
  ℕ, ◌≡◌, ◌≢◌, refl, ◌∙◌, String, str_eq, eq_iff, Option, none, some, arith, Bool-cases, inl, inr,
}
use discord_stoat_ferry.Prelude.Dict
use discord_stoat_ferry.Prelude.Dict.{Dict, get-put}
use discord_stoat_ferry.Feedback.Receipts.{
  ReceiptState, pending, delivered, failed, absent, ClaimOutcome, created, still_pending,
  already_delivered, conflict, DestinationKind, ReceiptRecord, ReceiptClaim, unexpired, new_receipt,
  with_hash, claim_state, claim_known, claim_receipt, is_legacy,
}

-- The state that each outcome of a claim stands for.
abbrev pub Means : ClaimOutcome → String → ReceiptRecord → Type 0
Means created content_hash receipt =
    (receipt.state ≡ pending) × (receipt.content_hash ≡ content_hash)
Means still_pending content_hash receipt =
    (receipt.state ≡ pending) × (receipt.content_hash ≡ content_hash)
Means already_delivered content_hash receipt =
    (receipt.state ≡ delivered) × (receipt.content_hash ≡ content_hash)
Means conflict content_hash receipt = receipt.content_hash ≢ content_hash

pub record Claimed (id content_hash : String) (claimed : ReceiptClaim) (after : Dict ReceiptRecord)
    : Type 0 where
  pub saved : Dict.get after id ≡ some claimed.receipt
  pub means : Means claimed.outcome content_hash claimed.receipt

get-put_same :
    (table : Dict ReceiptRecord) (id : String) (receipt : ReceiptRecord)
    → Dict.get (Dict.put table id receipt) id ≡ some receipt
get-put_same table id receipt = get-put id id receipt table ∙ ground (arith, eq_iff id id)

claim_state-Claimed :
    (id content_hash : String) (kind : DestinationKind) (now : ℕ) (receipt : ReceiptRecord)
    (state : ReceiptState) (table : Dict ReceiptRecord)
    → receipt.state ≡ state
    → receipt.content_hash ≡ content_hash
    → Dict.get table id ≡ some receipt
    → (let (claimed, after) = claim_state id kind now receipt state table in
        Claimed id content_hash claimed after)
claim_state-Claimed id content_hash kind now receipt delivered table s h at = record {
  saved = at;
  means = (s, h);
}
claim_state-Claimed id content_hash kind now receipt pending table s h at = record {
  saved = at;
  means = (s, h);
}
claim_state-Claimed id content_hash kind now receipt failed table s h at = record {
  saved = get-put_same table id (new_receipt receipt.content_hash kind now);
  means = (refl, h);
}
claim_state-Claimed id content_hash kind now receipt absent table s h at = record {
  saved = get-put_same table id (new_receipt receipt.content_hash kind now);
  means = (refl, h);
}

claim_known-Claimed :
    (id content_hash : String) (kind : DestinationKind) (now : ℕ) (legacy : Option String)
    (known : Option ReceiptRecord) (table : Dict ReceiptRecord)
    → Dict.get table id ≡ known
    → (let (claimed, after) = claim_known id content_hash kind now legacy known table in
        Claimed id content_hash claimed after)
claim_known-Claimed id content_hash kind now legacy none table at = record {
  saved = get-put_same table id (new_receipt content_hash kind now);
  means = (refl, refl);
}
claim_known-Claimed id content_hash kind now legacy (some receipt) table at =
    elim (Bool-cases (str_eq receipt.content_hash content_hash)) [
      | inl same ↦ rw same (
          claim_state-Claimed id content_hash kind now receipt receipt.state table refl
            ((eq_iff receipt.content_hash content_hash).0 same) at)
      | inr differs ↦ elim (Bool-cases (is_legacy legacy receipt.content_hash)) [
        | inl old ↦
            rw (differs, old)
              (claim_state-Claimed id content_hash kind now (with_hash receipt content_hash)
                receipt.state (Dict.put table id (with_hash receipt content_hash)) refl refl
                (get-put_same table id (with_hash receipt content_hash)))
        | inr other ↦
            rw (differs, other)
              (record {
                saved = at;
                means = λ e. cc ((eq_iff receipt.content_hash content_hash).1 e, differs);
              })
      ]
    ]

-- A claim reports what is saved. After it the table holds the receipt that it returns. A receipt
-- reported as created or as pending is pending with the claimed content, one reported as delivered is
-- delivered with that content, and a conflict is a receipt with other content.
pub claim_receipt-Claimed :
    (id content_hash : String) (kind : DestinationKind) (now : ℕ) (legacy : Option String)
    (table : Dict ReceiptRecord)
    → (let (claimed, after) = claim_receipt id content_hash kind now legacy table in
        Claimed id content_hash claimed after)
unfolding claim_receipt
claim_receipt-Claimed id content_hash kind now legacy table =
    claim_known-Claimed id content_hash kind now legacy (Dict.get (unexpired now table) id)
      (unexpired now table) refl
