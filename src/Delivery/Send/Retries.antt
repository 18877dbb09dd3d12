-- ===== src/Delivery/Send/Retries.antt =====
-- When a message is sent again: only after replies that show that it was not created.
use discord_stoat_ferry.Prelude.{
  ℕ, zero, suc, ◌+◌, ◌<◌, ◌≤◌, ◌≡◌, Bool, true, false, ◌||◌, Option, none, some, List, [], ◌∷◌,
  arith, refl, ◌∙◌, inl, inr, ◌⊎◌, ap, sym, ◌-◌, ltb, Bool-cases,
}
use discord_stoat_ferry.Prelude.Json.{Value, member, is_text}
use discord_stoat_ferry.Delivery.Receipt.{is_stoat_id}
use discord_stoat_ferry.Delivery.Send.{
  Reply, Outcome, accepted, rejected, failed, Attempt, settled, cooldown, again, attempt, attempts,
  next_reply, later_replies, api_request, at_last, until_settled,
}
use discord_stoat_ferry.Delivery.Send.Replies.{
  has_status, reply_at, limited_of_again, limited_of_cooldown, identified_of_accepted,
  refused_of_rejected, ends_at_last,
}

-- What `attempts` tells of the replies it used: `n` of them, the last of which gave the result.
record Used (replies : List Reply) (left : ℕ) (result : Attempt) (n : ℕ) (rest : List Reply)
    : Type 0 where
  some_sent : 1 ≤ n
  within : n ≤ left + 1
  resent : (i : ℕ) → suc i < n → has_status (reply_at replies i) 429 ≡ true
  rest_at : (i : ℕ) → reply_at rest i ≡ reply_at replies (n + i)
  ended : result ≡ again → ⊥
  identified :
      (message : Value)
      → result ≡ settled (accepted message)
      → is_text (member message "_id") is_stoat_id ≡ true
  cooled :
      (seconds : ℕ)
      → result ≡ cooldown seconds
      → (i : ℕ) → suc i ≡ n
      → has_status (reply_at replies i) 429 ≡ true
  refused :
      result ≡ settled rejected
      → (i : ℕ) → suc i ≡ n
      → (has_status (reply_at replies i) 429 || has_status (reply_at replies i) 403) ≡ true

first_reply : (replies : List Reply) → next_reply replies ≡ reply_at replies 0
first_reply [] = refl
first_reply (reply ∷ replies) = refl

later_reply :
    (replies : List Reply) (i : ℕ) → reply_at (later_replies replies) i ≡ reply_at replies (suc i)
later_reply [] i = refl
later_reply (reply ∷ replies) i = refl

Used-once :
    (waits : Bool) (replies : List Reply) (left : ℕ) (result : Attempt)
    → attempt waits left (next_reply replies) ≡ result
    → (result ≡ again → ⊥)
    → Used replies left result 1 (later_replies replies)
Used-once waits replies left result e ended = record {
  some_sent = omega arith;
  within = omega arith;
  resent = λ i p. absurd (omega arith);
  rest_at = λ i. let e : 1 + i ≡ suc i = omega arith in rw e (later_reply replies i);
  ended = ended;
  identified = λ message c. identified_of_accepted waits left (next_reply replies) message (e ∙ c);
  cooled = λ seconds c i p.
      let first : i ≡ 0 = omega arith in
      rw (first, ← first_reply replies)
        (limited_of_cooldown waits left (next_reply replies) seconds (e ∙ c));
  refused = λ c i p.
      let first : i ≡ 0 = omega arith in
      rw (first, ← first_reply replies)
        (refused_of_rejected waits left (next_reply replies) (e ∙ c));
}

Used-later :
    (replies : List Reply) (left : ℕ) (result : Attempt) (n : ℕ) (rest : List Reply)
    → has_status (reply_at replies 0) 429 ≡ true
    → Used (later_replies replies) left result n rest
    → Used replies (suc left) result (suc n) rest
Used-later replies left result n rest first u = record {
  some_sent = omega (arith, u.some_sent);
  within = omega (arith, u.within);
  resent = λ i p. elim (cases i) [
    | inl z ↦ rw z first
    | inr (j, s) ↦ rw (s, ← later_reply replies j) (u.resent j (omega arith))
  ];
  rest_at = λ i.
      let e : suc n + i ≡ suc (n + i) = omega arith in
      rw e (u.rest_at i ∙ later_reply replies (n + i));
  ended = u.ended;
  identified = u.identified;
  cooled = λ seconds c i p. elim (cases i) [
    | inl z ↦ rw z first
    | inr (j, s) ↦ rw (s, ← later_reply replies j) (u.cooled seconds c j (omega arith))
  ];
  refused = λ c i p. elim (cases i) [
    | inl z ↦ absurd (omega (arith, u.some_sent))
    | inr (j, s) ↦ rw (s, ← later_reply replies j) (u.refused c j (omega arith))
  ];
}
  where
    cases : (i : ℕ) → (i ≡ 0) ⊎ ((j : ℕ) × (i ≡ suc j))
    cases zero = inl refl
    cases (suc j) = inr (j, refl)

Attempt-cases : (a : Attempt) → (a ≡ again) ⊎ (a ≡ again → ⊥)
Attempt-cases again = inl refl
Attempt-cases (settled outcome) = inr λ h. cc
Attempt-cases (cooldown seconds) = inr λ h. cc

attempts-again :
    (waits : Bool) (left : ℕ) (replies : List Reply)
    → attempt waits (suc left) (next_reply replies) ≡ again
    → attempts waits (suc left) replies ≡ (
        let (result, n, rest) = attempts waits left (later_replies replies) in
        (result, suc n, rest))
unfolding attempts
attempts-again waits left replies h = ground arith

attempts-ended :
    (waits : Bool) (left : ℕ) (replies : List Reply)
    → (attempt waits (suc left) (next_reply replies) ≡ again → ⊥)
    → attempts waits (suc left) replies
      ≡ (attempt waits (suc left) (next_reply replies), 1, later_replies replies)
unfolding attempts
attempts-ended waits left replies h = ground arith

attempts-Used :
    (waits : Bool) (left : ℕ) (replies : List Reply)
    → (let (result, n, rest) = attempts waits left replies in Used replies left result n rest)
unfolding attempts
attempts-Used waits zero replies =
    Used-once waits replies 0 _ refl (ends_at_last waits (next_reply replies))
attempts-Used waits (suc left) replies =
    elim (Attempt-cases (attempt waits (suc left) (next_reply replies))) [
      | inl h ↦ rw (attempts-again waits left replies h) (
          Used-later replies left _ _ _
            (rw (← first_reply replies) (limited_of_again waits (suc left) (next_reply replies) h))
            (attempts-Used waits left (later_replies replies)))
      | inr h ↦
          rw (attempts-ended waits left replies h) (Used-once waits replies (suc left) _ refl h)
    ]

-- What a message request did: `requests` of them, one after the other.
pub record Sends (replies : List Reply) (outcome : Outcome) (requests : ℕ) : Type 0 where
  pub sent : 1 ≤ requests
  pub bounded : requests ≤ 6
  pub resent : (i : ℕ) → suc i < requests → has_status (reply_at replies i) 429 ≡ true
  pub identified :
      (message : Value)
      → outcome ≡ accepted message
      → is_text (member message "_id") is_stoat_id ≡ true
  pub refused :
      outcome ≡ rejected
      → (i : ℕ) → suc i ≡ requests
      → (has_status (reply_at replies i) 429 || has_status (reply_at replies i) 403) ≡ true

at_last-refused :
    (replies : List Reply) (left : ℕ) (result : Attempt) (n : ℕ) (rest : List Reply)
    → Used replies left result n rest
    → at_last result ≡ rejected
    → (i : ℕ) → suc i ≡ n
    → (has_status (reply_at replies i) 429 || has_status (reply_at replies i) 403) ≡ true
at_last-refused replies left (settled outcome) n rest u e i p = u.refused (ap settled e) i p
at_last-refused replies left (cooldown seconds) n rest u e i p = rw (u.cooled seconds refl i p) refl
at_last-refused replies left again n rest u e i p = absurd (u.ended refl)

at_last-identified :
    (replies : List Reply) (left : ℕ) (result : Attempt) (n : ℕ) (rest : List Reply)
    → Used replies left result n rest
    → (message : Value) → at_last result ≡ accepted message
    → is_text (member message "_id") is_stoat_id ≡ true
at_last-identified replies left (settled outcome) n rest u message e =
    u.identified message (ap settled e)
at_last-identified replies left (cooldown seconds) n rest u message e = cc
at_last-identified replies left again n rest u message e = cc

Sends-once :
    (replies : List Reply) (outcome : Outcome) (result : Attempt) (n : ℕ) (rest : List Reply)
    → Used replies 2 result n rest
    → (outcome ≡ failed) ⊎ (outcome ≡ at_last result)
    → Sends replies outcome n
Sends-once replies outcome result n rest u (inl same) = record {
  sent = u.some_sent;
  bounded = omega (arith, u.within);
  resent = u.resent;
  identified = λ message e. cc;
  refused = λ e. cc;
}
Sends-once replies outcome result n rest u (inr same) = record {
  identified = λ message e. at_last-identified replies 2 result n rest u message (sym same ∙ e);
  sent = u.some_sent;
  bounded = omega (arith, u.within);
  resent = u.resent;
  refused = λ e. at_last-refused replies 2 result n rest u (sym same ∙ e);
}

-- A position before the last of the first `n` replies, at it, or behind them.
order : (i n : ℕ) → (suc i < n) ⊎ (suc i ≡ n) ⊎ ((j : ℕ) × (i ≡ n + j))
order i n = elim (Bool-cases (ltb i n)) [
  | inl p ↦ elim (Bool-cases (ltb (suc i) n)) [
    | inl q ↦ inl (ground arith)
    | inr q ↦ inr (inl (ground arith))
  ]
  | inr p ↦ inr (inr (i - n, ground arith))
]

Sends-twice :
    (replies rest unused : List Reply) (second : Attempt) (seconds n more : ℕ)
    → Used replies 2 (cooldown seconds) n rest
    → Used rest 2 second more unused
    → Sends replies (at_last second) (n + more)
Sends-twice replies rest unused second seconds n more u v = record {
  sent = omega (arith, u.some_sent);
  bounded = omega (arith, u.within, v.within);
  resent = λ i p. elim (order i n) [
    | inl before ↦ u.resent i before
    | inr (inl at) ↦ u.cooled seconds refl i at
    | inr (inr (j, e)) ↦ rw (e, ← u.rest_at j) (v.resent j (omega arith))
  ];
  identified = at_last-identified rest 2 second more unused v;
  refused = λ e i p. elim (order i n) [
    | inl before ↦ absurd (omega (arith, v.some_sent))
    | inr (inl at) ↦ absurd (omega (arith, v.some_sent))
    | inr (inr (j, same)) ↦
        rw (same, ← u.rest_at j) (at_last-refused rest 2 second more unused v e j (omega arith))
  ];
}

after_cooldown :
    (wait : ℕ → Bool) (replies : List Reply) (result : Attempt) (n : ℕ) (rest : List Reply)
    → Used replies 2 result n rest
    → (let (outcome, requests) = until_settled wait result n rest in Sends replies outcome requests)
after_cooldown wait replies (settled outcome) n rest u =
    Sends-once replies _ (settled outcome) n rest u (inr refl)
after_cooldown wait replies again n rest u = absurd (u.ended refl)
after_cooldown wait replies (cooldown seconds) n rest u = elim (Bool-cases (wait seconds)) [
  | inl h ↦ rw h (Sends-twice replies rest _ _ seconds n _ u (attempts-Used true 2 rest))
  | inr h ↦ rw h (Sends-once replies failed (cooldown seconds) n rest u (inl refl))
]

-- A message is sent once at least and at most six times, whether or not there is a wait handler. It
-- is sent again only after a 429 reply, its rejection is concluded only from a 429 or a 403, and a
-- message that is taken as created has a valid identifier.
pub api_request-Sends :
    (wait : Option (ℕ → Bool)) (replies : List Reply)
    → (let (outcome, requests) = api_request wait replies in Sends replies outcome requests)
unfolding api_request
api_request-Sends none replies =
    Sends-once replies _ _ _ _ (attempts-Used false 2 replies) (inr refl)
api_request-Sends (some wait) replies =
    after_cooldown wait replies _ _ _ (attempts-Used true 2 replies)
