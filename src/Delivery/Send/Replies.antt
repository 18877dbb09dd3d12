-- ===== src/Delivery/Send/Replies.antt =====
-- What one attempt of a message request can end in, for each kind of reply.
use discord_stoat_ferry.Prelude.{
  ℕ, zero, suc, ◌≡◌, Bool, true, false, ◌||◌, Option, none, some, List, get_or, ◌==◌, arith,
}
use discord_stoat_ferry.Prelude.Json.{Value, member, is_text}
use discord_stoat_ferry.Delivery.Receipt.{is_stoat_id}
use discord_stoat_ferry.Delivery.Send.{
  Reply, response, lost, unreachable, accepted, rejected, Attempt, settled, cooldown, again,
  attempt, or_exhausted, in_slowmode, created,
}

abbrev pub has_status : Reply → ℕ → Bool
has_status (response status body) expected = status == expected
has_status lost expected = false
has_status unreachable expected = false

abbrev pub reply_at : List Reply → ℕ → Reply
reply_at replies i = get_or replies i lost

pub limited_of_again :
    (waits : Bool) (left : ℕ) (reply : Reply)
    → attempt waits left reply ≡ again
    → has_status reply 429 ≡ true
unfolding attempt
limited_of_again waits left lost h = ground arith
limited_of_again waits left unreachable h = ground arith
limited_of_again waits left (response status body) h = ground arith

pub limited_of_cooldown :
    (waits : Bool) (left : ℕ) (reply : Reply) (seconds : ℕ)
    → attempt waits left reply ≡ cooldown seconds
    → has_status reply 429 ≡ true
unfolding attempt
limited_of_cooldown waits left lost seconds h = ground arith
limited_of_cooldown waits left unreachable seconds h = ground arith
limited_of_cooldown waits left (response status body) seconds h = ground arith

created_not_rejected : (body : Option Value) → created body ≡ rejected → ⊥
unfolding created
created_not_rejected none h = cc
created_not_rejected (some value) h = ground arith

pub refused_of_rejected :
    (waits : Bool) (left : ℕ) (reply : Reply)
    → attempt waits left reply ≡ settled rejected
    → (has_status reply 429 || has_status reply 403) ≡ true
unfolding attempt
refused_of_rejected waits left lost h = ground arith
refused_of_rejected waits left unreachable h = ground arith
refused_of_rejected waits left (response status body) h = ground (arith, created_not_rejected body)

unaccepted :
    (body : Option Value) (left : ℕ) (message : Value)
    → or_exhausted left (in_slowmode body) ≡ settled (accepted message)
    → ⊥
unfolding in_slowmode
unaccepted none zero message h = cc
unaccepted none (suc left) message h = cc
unaccepted (some body) zero message h = ground arith
unaccepted (some body) (suc left) message h = ground arith

identified_of_created :
    (body : Option Value) (message : Value)
    → created body ≡ accepted message
    → is_text (member message "_id") is_stoat_id ≡ true
unfolding created
identified_of_created none message h = cc
identified_of_created (some value) message h = ground arith

pub identified_of_accepted :
    (waits : Bool) (left : ℕ) (reply : Reply) (message : Value)
    → attempt waits left reply ≡ settled (accepted message)
    → is_text (member message "_id") is_stoat_id ≡ true
unfolding attempt
identified_of_accepted waits left lost message h = ground arith
identified_of_accepted waits left unreachable message h = ground arith
identified_of_accepted waits zero (response status body) message h =
    ground (arith, identified_of_created body message, unaccepted body zero message)
identified_of_accepted waits (suc left) (response status body) message h =
    ground (arith, identified_of_created body message, unaccepted body (suc left) message)

exhausted : (result : Attempt) → or_exhausted 0 result ≡ again → ⊥
exhausted again h = ground arith
exhausted (settled outcome) h = ground arith
exhausted (cooldown seconds) h = ground arith

pub ends_at_last : (waits : Bool) (reply : Reply) → attempt waits 0 reply ≡ again → ⊥
unfolding attempt
ends_at_last waits lost h = ground arith
ends_at_last waits unreachable h = ground arith
ends_at_last waits (response status body) h =
    ground (arith, exhausted again, exhausted (in_slowmode body))
