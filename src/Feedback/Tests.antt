-- ===== src/Feedback/Tests.antt =====
-- The theorems on quotas and receipts at concrete inputs.
use discord_stoat_ferry.Prelude.{refl, false, none, [], ◌∷◌}
use discord_stoat_ferry.Feedback.Quota.{report, RateEvent, event_of, claim_quota}
use discord_stoat_ferry.Prelude.Dict.{get, put}
use discord_stoat_ferry.Feedback.Receipts.{
  issue, delivered, ReceiptRecord, new_receipt, claim_receipt, with_state, transition,
}
use discord_stoat_ferry.Feedback.Receipts.Claims.{Claimed, claim_receipt-Claimed}
use discord_stoat_ferry.Feedback.Receipts.Transitions.{Moved, transition-Moved}
use discord_stoat_ferry.Feedback.Quota.Limits.{Decided, claim_quota-Decided}

abbrev earlier : RateEvent
earlier = event_of report "a" 100000

claim_quota-Decided_example :
    (let (decision, after) = claim_quota report "a" 100500 (earlier ∷ []) in
      Decided report "a" 100500 (earlier ∷ []) after decision)
claim_quota-Decided_example = claim_quota-Decided report "a" 100500 (earlier ∷ [])

-- A claim of a new report, and its delivery.
abbrev the_claim : ReceiptRecord
the_claim = new_receipt "hash" issue 100500

claim_receipt-Claimed_example :
    (let (claimed, after) = claim_receipt "id" "hash" issue 100500 none [] in
      Claimed "id" "hash" claimed after)
claim_receipt-Claimed_example = claim_receipt-Claimed "id" "hash" issue 100500 none []

transition-Moved_example :
    Moved "id" delivered
      (("id", the_claim) ∷ [])
      (with_state the_claim delivered 100600 none false)
      (("id", with_state the_claim delivered 100600 none false) ∷ [])
unfolding transition get put
transition-Moved_example =
    transition-Moved "id" delivered 100600 none false (("id", the_claim) ∷ [])
      (("id", with_state the_claim delivered 100600 none false) ∷ [])
      (with_state the_claim delivered 100600 none false) refl
