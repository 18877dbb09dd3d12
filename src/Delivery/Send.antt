-- ===== src/Delivery/Send.antt =====
-- migrator/api.py: what `_api_request` makes of the replies to a message that can be recovered.
-- The pacer, the circuit breaker and the delays before a retry have no effect on the outcome.
pub mod Replies
pub mod Retries
use discord_stoat_ferry.Prelude.{
  ℕ, zero, suc, ◌+◌, String, str_eq, Bool, true, false, not, ◌&&◌, ◌||◌, Option, none, some, List,
  [], ◌∷◌, if◌then◌else◌, leb, ◌==◌,
}
use discord_stoat_ferry.Prelude.Json.{
  Value, null, boolean, string, number, array, object, Fields, end, field, get, is_object, member,
  is_text,
}
use discord_stoat_ferry.Delivery.Receipt.{is_stoat_id}

-- One attempt: a status with its JSON body, None where that cannot be read; a lost connection or a
-- timeout; an error of the proxy or the certificate that stays.
pub data Reply : Type 0 where
  response : ℕ → Option Value → Reply
  lost : Reply
  unreachable : Reply

-- The message that was created; a `MessageSendFailure` with `confirmed_rejected`; an uncertain
-- outcome, which is handed to the recovery; any other exception.
pub data Outcome : Type 0 where
  accepted : Value → Outcome
  rejected : Outcome
  uncertain : Outcome
  failed : Outcome

-- What one attempt ends in: the outcome, a cooldown of the channel, or another attempt.
pub data Attempt : Type 0 where
  settled : Outcome → Attempt
  cooldown : ℕ → Attempt
  again : Attempt

-- `set(fields) <= {"type", "permission", "location"}`
are_expected : Fields → Bool
are_expected end = true
are_expected (field name value fields) =
    (str_eq name "type" || (str_eq name "permission" || str_eq name "location"))
    && are_expected fields

abbrev is_location : Option Value → Bool
is_location none = true
is_location (some value) = is_text value (λ s. true)

-- The 403 that names a missing permission to send.
unfoldable is_permission_rejection : Option Value → Bool
unfolding get is_text are_expected
is_permission_rejection (some (object rejection)) =
    ((is_text (member (object rejection) "type") (λ s. str_eq s "MissingPermission")
        && is_text (member (object rejection) "permission")
            (λ s. str_eq s "SendMessage" || str_eq s "MentionRoles"))
      && are_expected rejection)
    && is_location (get rejection "location")
is_permission_rejection body = false

-- `_in_slowmode`: not a cooldown, a cooldown of this length, or one that is not valid
pub in_slowmode : Option Value → Attempt
unfolding is_text member
in_slowmode none = again
in_slowmode (some body) =
    if is_object body && is_text (member body "type") (λ s. str_eq s "InSlowmode")
    then elim (member body "retry_after") [
      | number seconds ↦
          if leb 1 seconds && leb seconds 21600 then cooldown seconds else settled rejected
      | null ↦ settled rejected
      | boolean b ↦ settled rejected
      | string s ↦ settled rejected
      | array items ↦ settled rejected
      | object fields ↦ settled rejected
    ]
    else again

-- A created message must come with a valid identifier.
pub created : Option Value → Outcome
created none = uncertain
created (some result) =
    if is_object result && is_text (member result "_id") is_stoat_id
    then accepted result
    else uncertain

-- A 429 that is no cooldown: another attempt, unless this was the last of the budget.
abbrev pub or_exhausted : ℕ → Attempt → Attempt
or_exhausted zero again = settled rejected
or_exhausted (suc left) again = again
or_exhausted left (settled outcome) = settled outcome
or_exhausted left (cooldown seconds) = cooldown seconds

-- One round of the loop, where `left` more attempts are in the budget.
pub attempt : Bool → ℕ → Reply → Attempt
attempt waits left lost = settled uncertain
attempt waits left unreachable = settled failed
attempt waits left (response status body) =
    if status == 200 || status == 201
    then settled (created body)
    else if status == 429
    then or_exhausted left (if waits then in_slowmode body else again)
    else if status == 403 && is_permission_rejection body
    then settled rejected
    else settled uncertain

abbrev pub next_reply : List Reply → Reply
next_reply [] = lost
next_reply (reply ∷ replies) = reply

abbrev pub later_replies : List Reply → List Reply
later_replies [] = []
later_replies (reply ∷ replies) = replies

-- `_api_request_inner`: the attempts, the last of them with no more left. It gives how many requests
-- were sent, and the replies that were not used. Where no reply is given the connection is lost.
pub attempts : Bool → ℕ → List Reply → Attempt × ℕ × List Reply
attempts waits zero replies = (attempt waits 0 (next_reply replies), 1, later_replies replies)
attempts waits (suc left) replies =
    let (result, requests, rest) = attempts waits left (later_replies replies) in
    elim (attempt waits (suc left) (next_reply replies)) [
      | again ↦ (result, suc requests, rest)
      | settled outcome ↦ (settled outcome, 1, later_replies replies)
      | cooldown seconds ↦ (cooldown seconds, 1, later_replies replies)
    ]

-- `MAX_API_RETRIES` is 3.
abbrev retries_left : ℕ
retries_left = 2

-- The second time that the channel is in slowmode is a rejection.
abbrev pub at_last : Attempt → Outcome
at_last (settled outcome) = outcome
at_last (cooldown seconds) = rejected
at_last again = failed

-- The rest of the request after the attempts: a cooldown is waited out once.
abbrev pub until_settled : (ℕ → Bool) → Attempt → ℕ → List Reply → Outcome × ℕ
until_settled wait (settled outcome) requests rest = (outcome, requests)
until_settled wait again requests rest = (failed, requests)
until_settled wait (cooldown seconds) requests rest =
    let (second, more, unused) = attempts true retries_left rest in
    if wait seconds then (at_last second, requests + more) else (failed, requests)

-- `_api_request`; `wait` is the handler, and whether its wait ends without cancellation.
pub api_request : Option (ℕ → Bool) → List Reply → Outcome × ℕ
api_request none replies =
    let (result, requests, rest) = attempts false retries_left replies in (at_last result, requests)
api_request (some wait) replies =
    let (result, requests, rest) = attempts true retries_left replies in
    until_settled wait result requests rest
