-- ===== src/Feedback/Quota/Limits.antt =====
-- feedback_service/store.py: the limits that the quota claims keep, by a count of their own.
use discord_stoat_ferry.Prelude.{
  ℕ, suc, ◌+◌, ◌*◌, ◌≤◌, ◌≡◌, refl, ◌∙◌, ◌⊎◌, inl, inr, String, str_eq, Bool, true, false, ◌&&◌,
  Option, none, some, List, [], ◌∷◌, length, arith, if◌then◌else◌, ltb,
}
use discord_stoat_ferry.Feedback.Quota.{
  EventKind, report, challenge, RateEvent, QuotaDecision, hour, same_kind, is_from, insert,
  window_times, retry_for_window, cleanup_expired, event_of, later, decide, claim_report_quota,
  claim_quota,
}

-- Whether an event is of a kind, of one source or of any, and of the seconds before a time.
abbrev pub is_kind : EventKind → EventKind → Bool
is_kind report report = true
is_kind report challenge = false
is_kind challenge report = false
is_kind challenge challenge = true

abbrev pub concerns : Option String → String → Bool
concerns none hash = true
concerns (some source) hash = str_eq source hash

abbrev pub is_recent : EventKind → Option String → ℕ → ℕ → RateEvent → Bool
is_recent kind source seconds now event =
    is_kind event.event_kind kind
    && (concerns source event.source_hash && ltb now (event.created_at + seconds))

-- How many such events there are.
abbrev pub recent : EventKind → Option String → ℕ → ℕ → List RateEvent → ℕ
recent kind source seconds now [] = 0
recent kind source seconds now (event ∷ events) =
    let rest = recent kind source seconds now events in
    if is_recent kind source seconds now event then suc rest else rest

same_kind_lem : (a b : EventKind) → same_kind a b ≡ is_kind a b
same_kind_lem report report = refl
same_kind_lem report challenge = refl
same_kind_lem challenge report = refl
same_kind_lem challenge challenge = refl

is_from_lem : (source : Option String) (hash : String) → is_from source hash ≡ concerns source hash
is_from_lem none hash = refl
is_from_lem (some source) hash = refl

length-insert : (time : ℕ) (times : List ℕ) → length (insert time times) ≡ suc (length times)
unfolding insert
length-insert time [] = refl
length-insert time (other ∷ times) = ground (arith, length-insert time times)

-- The query of the claims finds as many.
length-window_times :
    (kind : EventKind) (source : Option String) (now seconds : ℕ) (events : List RateEvent)
    → length (window_times kind source now seconds events) ≡ recent kind source seconds now events
unfolding window_times
length-window_times kind source now seconds [] = refl
length-window_times kind source now seconds (event ∷ events) = ground (
  arith,
  same_kind_lem event.event_kind kind,
  is_from_lem source event.source_hash,
  length-insert event.created_at (window_times kind source now seconds events),
  length-window_times kind source now seconds events,
)

-- What is forgotten is in no window that ends now or later.
recent-cleanup_expired :
    (kind : EventKind) (source : Option String) (seconds now later_on : ℕ) (events : List RateEvent)
    → now ≤ later_on
    → seconds ≤ 86400
    → recent kind source seconds later_on (cleanup_expired now events)
      ≡ recent kind source seconds later_on events
unfolding cleanup_expired
recent-cleanup_expired kind source seconds now later_on [] after within = refl
recent-cleanup_expired kind source seconds now later_on (event ∷ events) after within =
    ground (arith, recent-cleanup_expired kind source seconds now later_on events after within)

-- Whether a claim leaves a window within its limit, or not.
abbrev retry_of : EventKind → Option String → ℕ → ℕ → ℕ → List RateEvent → Option ℕ
retry_of kind source seconds limit now events =
    retry_for_window kind source now seconds limit (cleanup_expired now events)

module _ (kind : EventKind) (source : Option String) (seconds limit now : ℕ)
    (events : List RateEvent) (within : seconds ≤ 86400) where
  counted :
      length (window_times kind source now seconds (cleanup_expired now events))
      ≡ recent kind source seconds now events
  counted =
      length-window_times kind source now seconds (cleanup_expired now events)
      ∙ recent-cleanup_expired kind source seconds now now events (omega arith) within

  room_of_none :
      retry_of kind source seconds limit now events ≡ none
      → suc (recent kind source seconds now events) ≤ limit
  unfolding retry_for_window
  room_of_none h = ground (arith, counted)

  full_of_some :
      (retry : ℕ)
      → retry_of kind source seconds limit now events ≡ some retry
      → limit ≤ recent kind source seconds now events
  unfolding retry_for_window
  full_of_some retry h = ground (arith, counted)

recent-event :
    (kind : EventKind) (source : Option String) (seconds now : ℕ) (event : RateEvent)
    (events : List RateEvent)
    → recent kind source seconds now (event ∷ events) ≤ suc (recent kind source seconds now events)
recent-event kind source seconds now event events = ground arith

-- At most 30 challenges of the source in the last hour; at most 3 reports of it in the last hour and
-- 10 in the last day, and 60 of all sources in the last hour.
pub IsWithin : EventKind → String → ℕ → List RateEvent → Type 0
IsWithin challenge source now events = recent challenge (some source) 3600 now events ≤ 30
IsWithin report source now events =
    (recent report (some source) 3600 now events ≤ 3)
    × (recent report (some source) 86400 now events ≤ 10)
    × (recent report none 3600 now events ≤ 60)

-- One of these limits is reached.
pub IsFull : EventKind → String → ℕ → List RateEvent → Type 0
IsFull challenge source now events = 30 ≤ recent challenge (some source) 3600 now events
IsFull report source now events =
    (3 ≤ recent report (some source) 3600 now events)
    ⊎ ((10 ≤ recent report (some source) 86400 now events)
        ⊎ (60 ≤ recent report none 3600 now events))

-- What has happened once a claim is decided.
abbrev pub history_after : Bool → EventKind → String → ℕ → List RateEvent → List RateEvent
history_after true kind source now events = event_of kind source now ∷ events
history_after false kind source now events = events

-- A decision about a claim: the limits over all that has happened, forgotten or not, and what the
-- table then still says of windows that end now or later.
pub record Decided (kind : EventKind) (source : String) (now : ℕ) (events after : List RateEvent)
    (decision : QuotaDecision) : Type 0 where
  pub within :
      decision.allowed ≡ true → IsWithin kind source now (event_of kind source now ∷ events)
  pub full : decision.allowed ≡ false → IsFull kind source now events
  pub same_counts :
      (kind' : EventKind) (source' : Option String) (seconds later_on : ℕ)
      → now ≤ later_on
      → seconds ≤ 86400
      → recent kind' source' seconds later_on after
        ≡ recent kind' source' seconds later_on
            (history_after decision.allowed kind source now events)

later-none : (a b : Option ℕ) → later a b ≡ none → (a ≡ none) × (b ≡ none)
later-none none b h = (refl, h)
later-none (some a) none h = cc
later-none (some a) (some b) h = ground arith

later-some :
    (a b : Option ℕ) (retry : ℕ)
    → later a b ≡ some retry
    → ((t : ℕ) × (a ≡ some t)) ⊎ ((t : ℕ) × (b ≡ some t))
later-some none b retry h = inr (retry, h)
later-some (some a) b retry h = inl (a, refl)

module _ (kind : EventKind) (source : String) (now : ℕ) (events : List RateEvent) where
  -- A decision on the table that the cleanup leaves.
  decide-Decided :
      (retry : Option ℕ)
      → (retry ≡ none → IsWithin kind source now (event_of kind source now ∷ events))
      → ((t : ℕ) → retry ≡ some t → IsFull kind source now events)
      → (let (decision, after) = decide retry kind source now (cleanup_expired now events) in
          Decided kind source now events after decision)
  decide-Decided none room full = record {
    within = λ _. room refl;
    full = λ h. cc;
    same_counts = λ kind' source' seconds later_on after short.
        ground
          (arith, recent-cleanup_expired kind' source' seconds now later_on events after short);
  }
  decide-Decided (some t) room full = record {
    within = λ h. cc;
    full = λ _. full t refl;
    same_counts = λ kind' source' seconds later_on after short.
        recent-cleanup_expired kind' source' seconds now later_on events after short;
  }

module _ (kind : EventKind) (source : Option String) (seconds limit : ℕ) (by : String) (now : ℕ)
    (events : List RateEvent) (within : seconds ≤ 86400) where
  -- A window that has room for a claim.
  fits :
      retry_of kind source seconds limit now events ≡ none
      → recent kind source seconds now (event_of kind by now ∷ events) ≤ limit
  fits h = omega (
    arith,
    recent-event kind source seconds now (event_of kind by now) events,
    room_of_none kind source seconds limit now events within h,
  )

-- Exactly the limits decide. A claim is allowed only if with it, among all that has happened, the
-- source has at most 30 challenges in the last hour if it claims one, and, if it claims a report, at
-- most 3 reports in the last hour and 10 in the last day and all sources at most 60 in the last hour;
-- it is refused only if one of these limits was reached. Afterwards the table gives the same counts
-- as all that has happened, with the claim if it was allowed, for every window of up to a day that
-- ends now or later.
pub claim_quota-Decided :
    (kind : EventKind) (source : String) (now : ℕ) (events : List RateEvent)
    → (let (decision, after) = claim_quota kind source now events in
        Decided kind source now events after decision)
unfolding claim_quota claim_report_quota IsWithin IsFull
claim_quota-Decided challenge source now events =
    decide-Decided challenge source now events (retry_of challenge (some source) hour 30 now events)
      (fits challenge (some source) hour 30 source now events (omega arith))
      (λ t e. full_of_some challenge (some source) hour 30 now events (omega arith) t e)
claim_quota-Decided report source now events =
    decide-Decided report source now events
      (later (retry_of report (some source) hour 3 now events) (
        later (retry_of report (some source) (24 * hour) 10 now events)
          (retry_of report none hour 60 now events)))
      room full
  where
    room :
        later (retry_of report (some source) hour 3 now events) (
            later
              (retry_of report (some source) (24 * hour) 10 now events)
              (retry_of report none hour 60 now events))
          ≡ none
        → IsWithin report source now (event_of report source now ∷ events)
    room h =
        let (first, rest) = later-none _ _ h in
        let (second, third) = later-none _ _ rest in
        (
          fits report (some source) hour 3 source now events (omega arith) first,
          fits report (some source) (24 * hour) 10 source now events (omega arith) second,
          fits report none hour 60 source now events (omega arith) third,
        )

    full :
        (t : ℕ)
        → later (retry_of report (some source) hour 3 now events) (
            later
              (retry_of report (some source) (24 * hour) 10 now events)
              (retry_of report none hour 60 now events))
          ≡ some t
        → IsFull report source now events
    full t h =
        let hourly = retry_of report (some source) hour 3 now events in
        let daily = retry_of report (some source) (24 * hour) 10 now events in
        let overall = retry_of report none hour 60 now events in
        elim (later-some hourly (later daily overall) t h) [
          | inl (t1, e) ↦
              inl (full_of_some report (some source) hour 3 now events (omega arith) t1 e)
          | inr (t2, rest) ↦ elim (later-some daily overall t2 rest) [
            | inl (t3, e) ↦ inr (
                inl
                  (full_of_some report (some source) (24 * hour) 10 now events (omega arith) t3 e))
            | inr (t4, e) ↦
                inr (inr (full_of_some report none hour 60 now events (omega arith) t4 e))
          ]
        ]
