-- ===== src/Delivery/Safety.antt =====
-- What holds between the calls of `deliver_part`: the receipt files tell of every request sent.
pub mod Rules
pub mod Attempts
pub mod Keyed
pub mod Writing
pub mod Steps
pub mod Sending
pub mod Calls
pub mod Renewal
pub mod Whole
pub mod Run
use discord_stoat_ferry.Prelude.{
  ℕ, zero, suc, ◌+◌, ◌<◌, ◌≤◌, ◌≡◌, String, str_eq, Bool, true, false, Option, none, some, List, [],
  ◌∷◌, if◌then◌else◌, get_elem?,
}
use discord_stoat_ferry.Prelude.Dict
use discord_stoat_ferry.Prelude.Dict.{Dict}
use discord_stoat_ferry.Delivery.Receipt.{
  DeliveryRef, DeliveryPart, DeliveryReceipt, uncertain, is_among,
}
use discord_stoat_ferry.Delivery.Keys.{Setup}
use discord_stoat_ferry.Delivery.Exec.{
  World, Event, note_write, note_write_rejected, note_write_confirmed, sent,
}
use discord_stoat_ferry.Delivery.Deliver.{max_attempt}

-- How many requests were sent under a key.
pub times_sent : List Event → String → ℕ
times_sent [] key = 0
times_sent (sent k held ∷ log) key =
    let times = times_sent log key in if str_eq k key then suc times else times
times_sent (note_write ∷ log) key = times_sent log key
times_sent (note_write_rejected ∷ log) key = times_sent log key
times_sent (note_write_confirmed ∷ log) key = times_sent log key

-- The receipt file said, when the request was sent, that the part with this key is uncertain.
abbrev Noted : String → Option DeliveryReceipt → Type 0
Noted key held =
    (receipt : DeliveryReceipt) × (held ≡ some receipt)
    × (i : ℕ) × (part : DeliveryPart) × (get_elem? receipt.parts i ≡ some part)
    × (part.key ≡ key)
    × (part.status ≡ uncertain)

pub AllNoted : List Event → Type 0
AllNoted [] = Unit
AllNoted (sent key held ∷ log) = Noted key held × AllNoted log
AllNoted (note_write ∷ log) = AllNoted log
AllNoted (note_write_rejected ∷ log) = AllNoted log
AllNoted (note_write_confirmed ∷ log) = AllNoted log

-- No part, and not the one at `i`, has an earlier attempt than `attempt` as its latest.
pub record Covers (parts : List DeliveryPart) (attempt i : ℕ) : Type 0 where
  pub below_all : attempt ≤ max_attempt parts
  pub below_own : (part : DeliveryPart) → get_elem? parts i ≡ some part → attempt ≤ part.attempt

module _ (setup : Setup) where
  abbrev pub key : DeliveryRef → ℕ → ℕ → String
  key ref attempt i = setup.key_hash setup.namespace ref attempt i

  -- The requests of the delivery are covered by these parts.
  abbrev pub Tracks : List Event → DeliveryRef → List DeliveryPart → Type 0
  Tracks log ref parts =
      (attempt i : ℕ) → 0 < times_sent log (key ref attempt i) → Covers parts attempt i

  pub record Recorded (disk : Dict DeliveryReceipt) (ref : DeliveryRef) (attempt i : ℕ)
      : Type 0 where
    pub receipt : DeliveryReceipt
    pub saved : Dict.get disk (setup.ref_hash ref) ≡ some receipt
    pub own : receipt.ref ≡ ref
    pub covered : Covers receipt.parts attempt i

  pub record Safe (w : World) : Type 0 where
    pub recorded :
        (ref : DeliveryRef) (attempt i : ℕ)
        → 0 < times_sent w.log (key ref attempt i)
        → Recorded w.disk ref attempt i
    pub unsent : (k : String) → is_among w.fresh k ≡ true → times_sent w.log k ≡ 0
    pub once : (k : String) → times_sent w.log k ≤ 1
    pub noted : AllNoted w.log

  -- The file of the delivery, if there is one, is its own.
  abbrev pub Owned : Dict DeliveryReceipt → DeliveryRef → Type 0
  Owned disk ref =
      (receipt : DeliveryReceipt)
      → Dict.get disk (setup.ref_hash ref) ≡ some receipt
      → receipt.ref ≡ ref
