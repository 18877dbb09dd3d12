-- ===== src/Delivery/Safety/Run.antt =====
-- Runs: calls of `deliver_part`, one after the other, with new sessions between them.
use discord_stoat_ferry.Prelude.{◌≤◌, ◌≡◌, refl, String, Bool, List, [], arith}
use discord_stoat_ferry.Prelude.Result.{Result, ok, err}
use discord_stoat_ferry.Delivery.Receipt.{DeliveryError, is_among}
use discord_stoat_ferry.Delivery.Keys.{Setup}
use discord_stoat_ferry.Delivery.Exec.{World}
use discord_stoat_ferry.Delivery.Files.{with_faults}
use discord_stoat_ferry.Delivery.Parts.{Call, Answers}
use discord_stoat_ferry.Delivery.Deliver.{deliver_part, with_fresh}
use discord_stoat_ferry.Delivery.Safety.{key, Safe, times_sent, AllNoted}
use discord_stoat_ferry.Delivery.Safety.Steps.{Kept}
use discord_stoat_ferry.Delivery.Safety.Sending.{NoCollision}
use discord_stoat_ferry.Delivery.Safety.Whole.{deliver_part-Safe}

-- The state after a call, whether it raised or not.
abbrev pub after_call : Setup → Call → Answers → World → World
after_call setup call answers w = (deliver_part setup call answers w).1

-- A run from one state to another: a call with any answers, a new session, which has prepared no
-- keys, or any change of what the disk will refuse.
pub data Run (setup : Setup) : World → World → Type 0 where
  done : {w : World} → Run setup w w
  called :
      {w after : World} (call : Call) (answers : Answers)
      → Run setup (after_call setup call answers w) after
      → Run setup w after
  restarted : {w after : World} → Run setup (with_fresh [] w) after → Run setup w after
  disturbed :
      {w after : World} (faults : List Bool)
      → Run setup (with_faults w faults) after
      → Run setup w after

Safe-of_Kept :
    {A : Type 0} (setup : Setup) (r : Result DeliveryError A × World)
    → Kept setup r
    → Safe setup r.1
Safe-of_Kept setup (ok a, w) k = k
Safe-of_Kept setup (err e, w) k = k

Run-Safe :
    {setup : Setup} {w after : World}
    → NoCollision setup
    → Run setup w after
    → Safe setup w
    → Safe setup after
unfolding is_among
Run-Safe unique done s = s
Run-Safe {setup} unique (called {w} call answers run) s = Run-Safe unique run (
    Safe-of_Kept setup (deliver_part setup call answers w)
      (deliver_part-Safe setup unique call answers s))
Run-Safe unique (restarted run) s =
    Run-Safe unique run (record {
      recorded = s.recorded;
      unsent = λ k h. absurd (cc);
      once = s.once;
      noted = s.noted;
    })
Run-Safe unique (disturbed faults run) s =
    Run-Safe unique run
      (record { recorded = s.recorded; unsent = s.unsent; once = s.once; noted = s.noted })

Safe-initial : (setup : Setup) (w : World) → w.log ≡ [] → Safe setup w
unfolding times_sent AllNoted
Safe-initial setup w h = record {
  recorded = λ ref attempt i sent_before.
      let never : times_sent w.log (key setup ref attempt i) ≡ 0 = rw h refl in
      absurd (omega arith);
  unsent = λ k _. rw h refl;
  once = λ k. rw h (omega arith);
  noted = rw h tt;
}

-- At-most-once delivery. In a run that starts before anything was sent, whatever the calls, the
-- answers of the server, the failures of the disk and the new sessions, no message request is made
-- twice under a key, if no two identities have the same well-formed key.
pub times_sent-Run :
    (setup : Setup)
    → NoCollision setup
    → (w after : World) → w.log ≡ []
    → Run setup w after
    → (k : String) → times_sent after.log k ≤ 1
times_sent-Run setup unique w after h run =
    let s = Run-Safe unique run (Safe-initial setup w h) in s.once

-- Evidence before effect. In a run that starts before anything was sent, if no two identities have
-- the same well-formed key, every message request was made while the receipt file held a receipt in
-- which the part with the request's key was saved as uncertain.
pub AllNoted-Run :
    (setup : Setup)
    → NoCollision setup
    → (w after : World) → w.log ≡ []
    → Run setup w after
    → AllNoted after.log
AllNoted-Run setup unique w after h run =
    let s = Run-Safe unique run (Safe-initial setup w h) in s.noted
