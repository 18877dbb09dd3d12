-- ===== src/Delivery/Safety/Whole.antt =====
-- A whole call of `deliver_part` keeps the account of what was sent.
use mathlib.Core.Option.{some-injective}
use discord_stoat_ferry.Prelude.{
  ℕ, ◌+◌, ◌<◌, ◌≡◌, refl, ap, sym, ◌∙◌, subst, String, Bool, true, false, not, ◌||◌, Option, none,
  some, List, arith, Bool-cases, inl, inr, ltb, all,
}
use discord_stoat_ferry.Prelude.Result.{ok}
use discord_stoat_ferry.Prelude.Dict
use discord_stoat_ferry.Prelude.Json.{Value}
use discord_stoat_ferry.Delivery.Receipt.{
  DeliveryRef, DeliveryPart, DeliveryReceipt, value_error, state_error, unresolved, is_among,
  is_hex_of,
}
use discord_stoat_ferry.Delivery.Keys.{Setup, new_parts}
use discord_stoat_ferry.Delivery.Exec.{World, continue}
use discord_stoat_ferry.Delivery.Legacy.{is_other_render, legacy_rows}
use discord_stoat_ferry.Delivery.Files.{read_delivery_receipt}
use discord_stoat_ferry.Delivery.Parts.{Call, Answers, with_parts}
use discord_stoat_ferry.Delivery.Deliver.{
  prepare, keys_of, max_attempt, rerender, is_rejected, establish, new_receipt, acknowledge_rows,
  saved_keys_match, deliver_found, deliver_part,
}
use discord_stoat_ferry.Delivery.Safety.{Safe, Covers, times_sent, key}
use discord_stoat_ferry.Delivery.Safety.Keyed.{
  KeyedFrom, Keyed-saved, Keyed-new, NewFrom, new_parts_lem,
}
use discord_stoat_ferry.Delivery.Safety.Rules.{
  Post, continue-Post, lift-Post, raise_when-Post, Post-map,
}
use discord_stoat_ferry.Delivery.Safety.Writing.{Same, Read, Read-Post}
use discord_stoat_ferry.Delivery.Safety.Steps.{Ready, Kept, result-Kept, prepare-Ready, Safe-Same}
use discord_stoat_ferry.Delivery.Safety.Sending.{NoCollision, Held}
use discord_stoat_ferry.Delivery.Deliver.{rerender_if, save_new}
use discord_stoat_ferry.Delivery.Safety.Calls.{deliver_saved-Kept, unsent_of_later}
use discord_stoat_ferry.Delivery.Safety.Renewal.{key_of_new, Covers-new, Later-acknowledge_rows}

-- What a call knows after it has read the receipt file.
record Start (setup : Setup) (ref : DeliveryRef) (saved : Option DeliveryReceipt) (w : World)
    : Type 0 where
  safe : Safe setup w
  held : Dict.get w.disk (setup.ref_hash ref) ≡ saved
  own :
      (receipt : DeliveryReceipt)
      → saved ≡ some receipt
      → (receipt.ref ≡ ref) × KeyedFrom setup ref 0 receipt.parts

module _ (setup : Setup) (unique : NoCollision setup) (call : Call) (answers : Answers) where
  -- A receipt in hand, and each of its parts has its own key.
  record Good (receipt : DeliveryReceipt) (w : World) : Type 0 where
    held : Held setup call.ref receipt w
    keyed : KeyedFrom setup call.ref 0 receipt.parts

  unsent_keys :
      {parts : List DeliveryPart} {w : World} (attempt : ℕ) (new : List DeliveryPart)
      → Ready setup call.ref parts w
      → NewFrom setup call.ref attempt 0 new
      → ((i : ℕ) → Covers parts attempt i → ⊥)
      → (k : String) → is_among (keys_of new) k ≡ true
      → times_sent w.log k ≡ 0
  unsent_keys {parts} {w} attempt new r made later k h =
      let (j, same) = key_of_new setup call.ref attempt 0 new made k h in
      subst (λ x. times_sent w.log x ≡ 0) same
        (unsent_of_later setup unique call answers attempt j r (later j))

  rerender_if-Good :
      (receipt : DeliveryReceipt) (other_render : Bool) {w : World}
      → 0 < call.part_count
      → Good receipt w
      → Post Good (Safe setup) (rerender_if setup call receipt other_render w)
  rerender_if-Good receipt false nonempty g = g
  rerender_if-Good receipt true {w} nonempty g =
      continue-Post (λ _ after. Good receipt after) Good (Safe setup) _ _
        (raise_when-Post _ (Safe setup)
          (call.recover_only
            || (not call.allow_rejected_retry || not (all is_rejected receipt.parts)))
          unresolved w (λ _. g) g.held.ready.safe)
        λ _ w1 g1.
          continue-Post
            (λ parts after.
              Good receipt after
              × (new_parts setup call.ref (max_attempt receipt.parts + 1) 0 call.part_count
                  ≡ ok parts))
            Good (Safe setup) _ _
            (lift-Post _ (Safe setup)
              (new_parts setup call.ref (max_attempt receipt.parts + 1) 0 call.part_count) w1
              (λ parts e. (g1, e)) g1.held.ready.safe)
            λ parts w2 (g2, e). replaced receipt parts nonempty g2 e
    where
      replaced :
          (receipt : DeliveryReceipt) (parts : List DeliveryPart) {w2 : World}
          → 0 < call.part_count
          → Good receipt w2
          → new_parts setup call.ref (max_attempt receipt.parts + 1) 0 call.part_count ≡ ok parts
          → Post Good (Safe setup) (
              continue
                (λ _ after. (ok (with_parts receipt call.render_digest parts), after))
                (prepare setup (with_parts receipt call.render_digest parts) (keys_of parts) w2))
      replaced receipt parts {w2} nonempty g e =
          let latest = max_attempt receipt.parts + 1 in
          let made = new_parts_lem setup call.ref latest 0 call.part_count parts e in
          let saved = with_parts receipt call.render_digest parts in
          continue-Post (λ _ after. Ready setup call.ref saved.parts after) Good (Safe setup) _ _
            (prepare-Ready setup saved (keys_of parts) g.held.ready g.held.own
              (λ attempt i h.
                let old = g.held.ready.tracks attempt i h in
                Covers-new setup call.ref latest 0 call.part_count parts e nonempty attempt i
                  (omega (arith, old.below_all)))
              (unsent_keys latest parts g.held.ready made (λ i c. omega (arith, c.below_all))))
            λ _ w3 r3. record {
              held = record { ready = r3; own = g.held.own };
              keyed = Keyed-new setup call.ref latest 0 parts made;
            }

  unsent_none :
      {w : World}
      → Start setup call.ref none w
      → (attempt i : ℕ) → times_sent w.log (key setup call.ref attempt i) ≡ 0
  unsent_none {w} s attempt i =
      elim (Bool-cases (ltb 0 (times_sent w.log (key setup call.ref attempt i)))) [
        | inl h ↦
            let old = s.safe.recorded call.ref attempt i (ground arith) in
            absurd (cc (s.held, old.saved))
        | inr h ↦ ground arith
      ]

  -- Where the delivery has no receipt, nothing was sent for it.
  Ready-none :
      {w : World} (parts : List DeliveryPart)
      → Start setup call.ref none w
      → Ready setup call.ref parts w
  Ready-none {w} parts s = record {
    safe = s.safe;
    tracks = λ attempt i h.
        let old = s.safe.recorded call.ref attempt i h in absurd (cc (s.held, old.saved));
    owned = λ receipt e. cc (s.held, e);
  }

  Good-saved :
      {w : World} (receipt : DeliveryReceipt)
      → Start setup call.ref (some receipt) w
      → Good receipt w
  Good-saved {w} receipt s =
      let (own, keyed) = s.own receipt refl in
      record {
        held = record {
          ready = record {
            safe = s.safe;
            tracks = λ attempt i h.
                let old = s.safe.recorded call.ref attempt i h in
                let same : old.receipt ≡ receipt = some-injective _ _ (sym old.saved ∙ s.held) in
                subst (λ x. Covers x.parts attempt i) same old.covered;
            owned = λ other e.
                let same : receipt ≡ other = some-injective _ _ (sym s.held ∙ e) in
                subst (λ x. x.ref ≡ call.ref) same own;
          };
          own = own;
        };
        keyed = keyed;
      }

  save_new-Good :
      (parts : List DeliveryPart) (is_legacy : Bool) {w : World}
      → Start setup call.ref none w
      → new_parts setup call.ref 0 0 call.part_count ≡ ok parts
      → Post Good (Safe setup) (save_new setup (new_receipt setup call parts) is_legacy w)
  save_new-Good parts true {w} s e = record {
    held = record { ready = Ready-none parts s; own = refl };
    keyed =
        Keyed-new setup call.ref 0 0 parts
          (new_parts_lem setup call.ref 0 0 call.part_count parts e);
  }
  save_new-Good parts false {w} s e =
      let made = new_parts_lem setup call.ref 0 0 call.part_count parts e in
      let before = Ready-none parts s in
      continue-Post (λ _ after. Ready setup call.ref parts after) Good (Safe setup) _ _
        (prepare-Ready setup (new_receipt setup call parts) (keys_of parts) before refl
          before.tracks
          λ k h.
            let (j, same) = key_of_new setup call.ref 0 0 parts made k h in
            subst (λ x. times_sent w.log x ≡ 0) same (unsent_none s 0 j))
        λ _ w1 r1. record {
          held = record { ready = r1; own = refl };
          keyed = Keyed-new setup call.ref 0 0 parts made;
        }

  establish-Good :
      (saved : Option DeliveryReceipt) (is_legacy : Bool) {w : World}
      → Start setup call.ref saved w
      → Post Good (Safe setup) (establish setup call saved is_legacy w)
  unfolding establish
  establish-Good (some receipt) is_legacy s = Good-saved receipt s
  establish-Good none is_legacy {w} s =
      continue-Post (λ _ after. Start setup call.ref none after) Good (Safe setup) _ _
        (raise_when-Post _ (Safe setup) call.recover_only unresolved w (λ _. s) s.safe)
        λ _ w1 s1.
          continue-Post
            (λ parts after.
              Start setup call.ref none after
              × (new_parts setup call.ref 0 0 call.part_count ≡ ok parts))
            Good (Safe setup) _ _
            (lift-Post _ (Safe setup) (new_parts setup call.ref 0 0 call.part_count) w1
              (λ parts e. (s1, e)) s1.safe)
            λ parts w2 (s2, e). save_new-Good parts is_legacy s2 e

  abbrev KeptAfter : {A : Type 0} → A → World → Type 0
  KeptAfter _ after = Safe setup after

  deliver_found-Kept :
      (saved : Option DeliveryReceipt) (rows : Option (List Value)) {w : World}
      → 0 < call.part_count
      → Start setup call.ref saved w
      → Kept setup (deliver_found setup call answers saved rows w)
  unfolding deliver_found rerender
  deliver_found-Kept saved (some rows) {w} nonempty s =
      continue-Post Good KeptAfter (Safe setup) _ _ (establish-Good saved true s) λ receipt w1 g1.
        continue-Post
          (λ parts after.
            Good receipt after × (acknowledge_rows setup receipt.parts rows ≡ ok parts))
          KeptAfter (Safe setup) _ _
          (lift-Post _ (Safe setup) (acknowledge_rows setup receipt.parts rows) w1
            (λ parts e. (g1, e)) g1.held.ready.safe)
          λ parts w2 (g2, e).
            result-Kept setup (with_parts receipt receipt.render_digest parts) call.part_index true
              g2.held.ready g2.held.own
              (Later-acknowledge_rows setup call.ref receipt.parts parts rows e)
  deliver_found-Kept saved none {w} nonempty s =
      continue-Post Good KeptAfter (Safe setup) _ _ (establish-Good saved false s) λ receipt w1 g1.
        continue-Post Good KeptAfter (Safe setup) _ _
          (rerender_if-Good receipt
            (is_other_render (some receipt) call.render_digest call.part_count) nonempty g1)
          λ rendered w2 g2. deliver_saved-Kept setup unique call answers rendered g2.held g2.keyed

  Start-saved :
      (saved : Option DeliveryReceipt) {w after : World}
      → Safe setup w
      → Read setup call.ref w saved after
      → saved_keys_match setup call.ref saved ≡ ok true
      → Start setup call.ref saved after
  Start-saved none {w} s r h = record {
    safe = Safe-Same setup r.same s;
    held = rw r.same.disk r.held;
    own = λ receipt e. cc;
  }
  Start-saved (some receipt) {w} s r h =
      let (own, decoded) = r.own receipt refl in
      record {
        safe = Safe-Same setup r.same s;
        held = rw r.same.disk r.held;
        own = λ other e.
            let same : receipt ≡ other = some-injective _ _ e in
            subst (λ x. (x.ref ≡ call.ref) × KeyedFrom setup call.ref 0 x.parts) same
              (own, Keyed-saved setup call.ref 0 receipt.parts decoded h);
      }

  pub deliver_part-Safe :
      {w : World} → Safe setup w → Kept setup (deliver_part setup call answers w)
  unfolding deliver_part
  deliver_part-Safe {w} s =
      continue-Post (λ _ after. Safe setup after) KeptAfter (Safe setup) _ _
        (raise_when-Post _ (Safe setup) setup.dry_run value_error w (λ _. s) s)
        λ _ w1 s1.
          continue-Post (λ _ after. Safe setup after × (0 < call.part_count)) KeptAfter (Safe setup)
            _ _
            (raise_when-Post _ (Safe setup)
              (not (ltb call.part_index call.part_count) || not (is_hex_of 64 call.render_digest))
              value_error w1 (λ shape. (s1, ground arith)) s1)
            λ _ w2 (s2, nonempty).
              continue-Post (Read setup call.ref w2) KeptAfter (Safe setup) _ _ (read_safe w2 s2)
                λ saved w3 r3.
                  continue-Post
                    (λ match after.
                      (after ≡ w3) × (saved_keys_match setup call.ref saved ≡ ok match))
                    KeptAfter (Safe setup) _ _
                    (lift-Post _ (Safe setup) (saved_keys_match setup call.ref saved) w3
                      (λ match e. (refl, e)) (Safe-Same setup r3.same s2))
                    λ match w4 (e4, h4).
                      continue-Post (λ _ after. Start setup call.ref saved after) KeptAfter
                        (Safe setup) _ _
                        (raise_when-Post _ (Safe setup) (not match) state_error w4
                          (λ matches.
                            let all_match : match ≡ true = ground arith in
                            subst (Start setup call.ref saved) (sym e4)
                              (Start-saved saved s2 r3 (h4 ∙ ap ok all_match)))
                          (subst (Safe setup) (sym e4) (Safe-Same setup r3.same s2)))
                        λ _ w5 s5.
                          continue-Post (λ _ after. Start setup call.ref saved after) KeptAfter
                            (Safe setup) _ _
                            (lift-Post _ (Safe setup)
                              (legacy_rows call.legacy_keys saved call.render_digest call.part_count
                                call.ref.destination_channel_id answers.pages)
                              w5 (λ _ _. s5) s5.safe)
                            λ rows w6 s6. deliver_found-Kept saved rows nonempty s6
    where
      read_safe :
          (w2 : World)
          → Safe setup w2
          → Post (Read setup call.ref w2) (Safe setup) (read_delivery_receipt setup call.ref w2)
      read_safe w2 s2 =
          Post-map (Read setup call.ref w2) (Read setup call.ref w2) (Same w2) (Safe setup) _
            (Read-Post setup call.ref w2) (λ saved after r. r)
            (λ after same. Safe-Same setup same s2)
