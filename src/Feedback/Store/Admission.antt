-- ===== src/Feedback/Store/Admission.antt =====
-- feedback_service/store.py: an admission is a claim that the quota may refuse.
use discord_stoat_ferry.Prelude.{
  ℕ, ◌≡◌, refl, String, str_eq, Bool, true, false, Option, none, some, List, [], ◌∷◌, arith,
  Bool-cases, inl, inr, ◌⊎◌, sym, ap, ◌∙◌, if◌then◌else◌, eq_iff,
}
use discord_stoat_ferry.Prelude.Dict
use discord_stoat_ferry.Prelude.Dict.{Dict}
use discord_stoat_ferry.Feedback.Receipts.{
  ReceiptState, ClaimOutcome, still_pending, already_delivered, conflict, pending, delivered,
  failed, absent, DestinationKind, ReceiptRecord, ReceiptClaim, unexpired, new_receipt, claim,
  created, is_legacy, claim_receipt, claim_known, claim_state, with_hash,
}
use discord_stoat_ferry.Feedback.Quota.{
  RateEvent, QuotaDecision, claim_report_quota, cleanup_expired,
}
use discord_stoat_ferry.Feedback.Store.{
  Store, ReceiptAdmission, admitted, refused, unexpired_contacts, open_within, open_if,
  open_receipt, admit_state, admit_known, admit, cleanup,
}

-- The quota is charged for a receipt that is new, or that had failed.
abbrev pub is_retry : ReceiptState → Bool
is_retry pending = false
is_retry delivered = false
is_retry failed = true
is_retry absent = false

abbrev pub is_charged : ClaimOutcome → Option ReceiptRecord → Bool
is_charged created none = true
is_charged created (some receipt) = is_retry receipt.state
is_charged still_pending prior = false
is_charged already_delivered prior = false
is_charged conflict prior = false

-- An admission beside the claim of the same receipt, `claimed` with the table `after_claim`, and the
-- answer of the quota, `decision` with the table `events`.
pub record Taken (prior : Option ReceiptRecord) (claimed : ReceiptClaim)
    (after_claim : Dict ReceiptRecord) (decision : QuotaDecision) (events : List RateEvent)
    (kept : Store) (admission : ReceiptAdmission) (after : Store) : Type 0 where
  pub is_claim : admission ≡ admitted claimed
  pub same_receipts : after.receipts ≡ after_claim
  pub same_contacts : after.contacts ≡ kept.contacts
  pub charge : after.events ≡ (if is_charged claimed.outcome prior then events else kept.events)
  pub within : is_charged claimed.outcome prior ≡ true → decision.allowed ≡ true

pub record TurnedAway (prior : Option ReceiptRecord) (claimed : ReceiptClaim)
    (decision : QuotaDecision) (kept : Store) (admission : ReceiptAdmission) (after : Store)
    : Type 0 where
  pub is_refusal : admission ≡ refused decision
  pub not_allowed : decision.allowed ≡ false
  pub would_charge : is_charged claimed.outcome prior ≡ true
  pub unchanged : after ≡ kept

abbrev pub Admits :
    Option ReceiptRecord
    → ReceiptClaim × Dict ReceiptRecord
    → QuotaDecision × List RateEvent
    → Store
    → ReceiptAdmission × Store
    → Type 0
Admits prior (claimed, after_claim) (decision, events) kept (admission, after) =
    Taken prior claimed after_claim decision events kept admission after
    ⊎ TurnedAway prior claimed decision kept admission after

put-put :
    (table : Dict ReceiptRecord) (id : String) (old new : ReceiptRecord)
    → Dict.put (Dict.put table id old) id new ≡ Dict.put table id new
unfolding Dict.put
put-put [] id old new = ground (arith, eq_iff id id)
put-put ((other, receipt) ∷ table) id old new = elim (Bool-cases (str_eq other id)) [
  | inl same ↦ rw (same, same)
  | inr more ↦ rw (more, more) (ap (λ t. (other, receipt) ∷ t) (put-put table id old new))
]

module _ (id content_hash : String) (kind : DestinationKind) (now : ℕ) (kept : Store) where
  module _ (prior : Option ReceiptRecord) (claimed : ReceiptClaim) (table : Dict ReceiptRecord)
      (same : claim created (new_receipt content_hash kind now) ≡ claimed)
      (e : Dict.put kept.receipts id (new_receipt content_hash kind now) ≡ table) where
    open_if-Admits :
        (allowed : Bool) (decision : QuotaDecision) (events : List RateEvent)
        → is_charged claimed.outcome prior ≡ true
        → decision.allowed ≡ allowed
        → Admits prior
            (claimed, table)
            (decision, events)
            kept
            (open_if allowed decision events id content_hash kind now kept)
    open_if-Admits true decision events charged is = inl (record {
      is_claim = ap admitted same;
      same_receipts = e;
      same_contacts = refl;
      charge = rw charged;
      within = λ _. is;
    })
    open_if-Admits false decision events charged is =
        inr
          (record { is_refusal = refl; not_allowed = is; would_charge = charged; unchanged = refl })

    open_within-Admits :
        (quota : QuotaDecision × List RateEvent)
        → is_charged claimed.outcome prior ≡ true
        → Admits prior (claimed, table) quota kept (open_within quota id content_hash kind now kept)
    open_within-Admits (decision, events) charged =
        open_if-Admits decision.allowed decision events charged refl

    open_receipt-Admits :
        (quota : QuotaDecision × List RateEvent)
        → is_charged claimed.outcome prior ≡ false
        → Admits prior (claimed, table) quota kept (open_receipt id content_hash kind now kept)
    open_receipt-Admits (decision, events) free = inl (record {
      is_claim = ap admitted same;
      same_receipts = e;
      same_contacts = refl;
      charge = rw free;
      within = λ charged. cc (sym free ∙ charged);
    })

  -- A receipt under the claimed hash.
  admit_state-Admits :
      (source : String) (receipt : ReceiptRecord) (state : ReceiptState)
      → receipt.state ≡ state
      → receipt.content_hash ≡ content_hash
      → Admits
          (some receipt)
          (claim_state id kind now receipt state kept.receipts)
          (claim_report_quota source now kept.events)
          kept
          (admit_state id content_hash kind source now false receipt state kept)
  admit_state-Admits source receipt failed s h =
      let e = sym h in
      open_within-Admits (some receipt) (claim created (new_receipt receipt.content_hash kind now))
        (Dict.put kept.receipts id (new_receipt receipt.content_hash kind now))
        (ap (λ c. claim created (new_receipt c kind now)) e)
        (ap (λ c. Dict.put kept.receipts id (new_receipt c kind now)) e)
        (claim_report_quota source now kept.events) (rw s)
  admit_state-Admits source receipt absent s h =
      let e = sym h in
      open_receipt-Admits (some receipt) (claim created (new_receipt receipt.content_hash kind now))
        (Dict.put kept.receipts id (new_receipt receipt.content_hash kind now))
        (ap (λ c. claim created (new_receipt c kind now)) e)
        (ap (λ c. Dict.put kept.receipts id (new_receipt c kind now)) e)
        (claim_report_quota source now kept.events) (rw s)
  admit_state-Admits source receipt delivered s h = inl (record {
    is_claim = refl;
    same_receipts = refl;
    same_contacts = refl;
    charge = refl;
    within = λ charged. cc;
  })
  admit_state-Admits source receipt pending s h = inl (record {
    is_claim = refl;
    same_receipts = refl;
    same_contacts = refl;
    charge = refl;
    within = λ charged. cc;
  })

  -- A receipt under an older hash, which is replaced.
  admit_legacy-Admits :
      (source : String) (receipt : ReceiptRecord) (state : ReceiptState)
      → receipt.state ≡ state
      → Admits
          (some receipt)
          (claim_state id kind now
            (with_hash receipt content_hash)
            state
            (Dict.put kept.receipts id (with_hash receipt content_hash)))
          (claim_report_quota source now kept.events)
          kept
          (admit_state id content_hash kind source now true receipt state kept)
  admit_legacy-Admits source receipt failed s =
      open_within-Admits (some receipt) (claim created (new_receipt content_hash kind now))
        (Dict.put (Dict.put kept.receipts id (with_hash receipt content_hash)) id
          (new_receipt content_hash kind now))
        refl
        (sym (
          put-put kept.receipts id (with_hash receipt content_hash)
            (new_receipt content_hash kind now)))
        (claim_report_quota source now kept.events) (rw s)
  admit_legacy-Admits source receipt absent s =
      open_receipt-Admits (some receipt) (claim created (new_receipt content_hash kind now))
        (Dict.put (Dict.put kept.receipts id (with_hash receipt content_hash)) id
          (new_receipt content_hash kind now))
        refl
        (sym (
          put-put kept.receipts id (with_hash receipt content_hash)
            (new_receipt content_hash kind now)))
        (claim_report_quota source now kept.events) (rw s)
  admit_legacy-Admits source receipt delivered s = inl (record {
    is_claim = refl;
    same_receipts = refl;
    same_contacts = refl;
    charge = refl;
    within = λ charged. cc;
  })
  admit_legacy-Admits source receipt pending s = inl (record {
    is_claim = refl;
    same_receipts = refl;
    same_contacts = refl;
    charge = refl;
    within = λ charged. cc;
  })

  admit_known-Admits :
      (source : String) (legacy : Option String) (prior : Option ReceiptRecord)
      → Admits prior
          (claim_known id content_hash kind now legacy prior kept.receipts)
          (claim_report_quota source now kept.events)
          kept
          (admit_known id content_hash kind source now legacy prior kept)
  admit_known-Admits source legacy none =
      open_within-Admits none (claim created (new_receipt content_hash kind now))
        (Dict.put kept.receipts id (new_receipt content_hash kind now)) refl refl
        (claim_report_quota source now kept.events) refl
  admit_known-Admits source legacy (some receipt) =
      elim (Bool-cases (str_eq receipt.content_hash content_hash)) [
        | inl same ↦ rw same (
            admit_state-Admits source receipt receipt.state refl
              ((eq_iff receipt.content_hash content_hash).0 same))
        | inr differs ↦ elim (Bool-cases (is_legacy legacy receipt.content_hash)) [
          | inl old ↦ rw (differs, old) (admit_legacy-Admits source receipt receipt.state refl)
          | inr other ↦
              rw (differs, other)
                (inl (record {
                  is_claim = refl;
                  same_receipts = refl;
                  same_contacts = refl;
                  charge = refl;
                  within = λ charged. cc;
                }))
        ]
      ]

-- Admission is claiming under a quota. An admission, of the receipt and the source at that time, either
-- returns what a claim of the same receipt returns, with the receipts that the claim leaves, and
-- records a report event exactly if the receipt is new or had failed, in which case the quota allows
-- it; or the claim would be so charged, the quota does not allow it, its decision is returned,
-- and nothing but what has expired is changed.
pub admit-Admits :
    (id content_hash : String) (kind : DestinationKind) (source : String) (now : ℕ)
    (legacy : Option String) (store : Store)
    → (let kept = cleanup now store in
        Admits
          (Dict.get kept.receipts id)
          (claim_receipt id content_hash kind now legacy store.receipts)
          (claim_report_quota source now kept.events)
          kept
          (admit id content_hash kind source now legacy store))
unfolding admit claim_receipt cleanup
admit-Admits id content_hash kind source now legacy store =
    let kept : Store = record {
      receipts = unexpired now store.receipts;
      contacts = unexpired_contacts now store.contacts;
      events = cleanup_expired now store.events;
    } in
    admit_known-Admits id content_hash kind now kept source legacy
      (Dict.get (unexpired now store.receipts) id)
