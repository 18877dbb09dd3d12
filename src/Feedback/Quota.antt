-- ===== src/Feedback/Quota.antt =====
-- feedback_service/store.py: the quota windows over the table `rate_events`. A time is a number of
-- seconds, and `created_at > now - window` is written without a difference.
pub mod Limits
use discord_stoat_ferry.Prelude.{
  ℕ, ◌+◌, ◌-◌, ◌*◌, String, str_eq, Bool, true, false, not, ◌&&◌, Option, none, some, List, [], ◌∷◌,
  length, get_or, if◌then◌else◌, ltb,
}

pub data EventKind : Type 0 where
  report challenge : EventKind

pub record RateEvent : Type 0 where
  pub source_hash : String
  pub event_kind : EventKind
  pub created_at : ℕ

pub record QuotaDecision : Type 0 where
  pub allowed : Bool
  pub retry_at : Option ℕ

abbrev pub hour : ℕ
hour = 3600

abbrev pub same_kind : EventKind → EventKind → Bool
same_kind report report = true
same_kind challenge challenge = true
same_kind report challenge = false
same_kind challenge report = false

abbrev pub is_from : Option String → String → Bool
is_from none source_hash = true
is_from (some source) source_hash = str_eq source source_hash

-- The `WHERE` of the query.
abbrev pub in_window : EventKind → Option String → ℕ → ℕ → RateEvent → Bool
in_window kind source now window event =
    (same_kind event.event_kind kind && is_from source event.source_hash)
    && ltb now (event.created_at + window)

-- `ORDER BY created_at`
unfoldable pub insert : ℕ → List ℕ → List ℕ
insert time [] = time ∷ []
insert time (other ∷ times) =
    let rest = insert time times in if ltb other time then other ∷ rest else time ∷ other ∷ times

unfoldable pub window_times : EventKind → Option String → ℕ → ℕ → List RateEvent → List ℕ
window_times kind source now window [] = []
window_times kind source now window (event ∷ events) =
    let times = window_times kind source now window events in
    if in_window kind source now window event then insert event.created_at times else times

-- `_retry_for_window`
unfoldable pub retry_for_window : EventKind → Option String → ℕ → ℕ → ℕ → List RateEvent → Option ℕ
retry_for_window kind source now window limit events =
    let times = window_times kind source now window events in
    if ltb (length times) limit then none else some (get_or times (length times - limit) 0 + window)

-- What `_cleanup_expired` keeps of `rate_events`: those of the last day.
unfoldable pub cleanup_expired : ℕ → List RateEvent → List RateEvent
cleanup_expired now [] = []
cleanup_expired now (event ∷ events) =
    let kept = cleanup_expired now events in
    if ltb now (event.created_at + 24 * hour) then event ∷ kept else kept

abbrev pub event_of : EventKind → String → ℕ → RateEvent
event_of kind source now = record { source_hash = source; event_kind = kind; created_at = now }

-- The greater of two times to wait for, where there are any.
abbrev pub later : Option ℕ → Option ℕ → Option ℕ
later none b = b
later (some a) none = some a
later (some a) (some b) = if ltb a b then some b else some a

-- A claim is refused until the given time, or recorded.
abbrev pub decide :
    Option ℕ → EventKind → String → ℕ → List RateEvent → QuotaDecision × List RateEvent
decide none kind source now events =
    (record { allowed = true; retry_at = none }, event_of kind source now ∷ events)
decide (some retry) kind source now events =
    (record { allowed = false; retry_at = some retry }, events)

-- `_claim_report_quota_in_transaction`
unfoldable pub claim_report_quota : String → ℕ → List RateEvent → QuotaDecision × List RateEvent
claim_report_quota source now events =
    decide
      (later (retry_for_window report (some source) now hour 3 events) (
        later (retry_for_window report (some source) now (24 * hour) 10 events)
          (retry_for_window report none now hour 60 events)))
      report source now events

-- `_claim_quota_sync`
unfoldable pub claim_quota :
    EventKind → String → ℕ → List RateEvent → QuotaDecision × List RateEvent
claim_quota report source now events = claim_report_quota source now (cleanup_expired now events)
claim_quota challenge source now events =
    let kept = cleanup_expired now events in
    decide (retry_for_window challenge (some source) now hour 30 kept) challenge source now kept
