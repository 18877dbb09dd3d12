-- ===== src/Delivery/Safety/Sending.antt =====
-- Looking a part up and sending it keep the account of what was sent.
use mathlib.Core.Option.{some-injective}
use discord_stoat_ferry.Prelude.{
  ℕ, suc, ◌<◌, ◌≤◌, ◌≡◌, refl, ap, sym, ◌∙◌, subst, String, str_eq, eq_iff, true, false, not, ◌&&◌,
  Option, some, List, [], ◌∷◌, get_elem?, map, if◌then◌else◌, arith, Bool-cases, Option-cases, inl,
  inr,
}
use discord_stoat_ferry.Prelude.Dict
use discord_stoat_ferry.Prelude.Dict.{Dict, get-put}
use discord_stoat_ferry.Delivery.Receipt.{
  uncertain as part_uncertain, DeliveryRef, DeliveryPart, DeliveryReceipt, DeliveryToken,
  unresolved, acknowledged, confirmed_rejected, is_among, is_delivery_key, is_stoat_id,
}
use discord_stoat_ferry.Delivery.Keys.{Setup}
use discord_stoat_ferry.Delivery.Exec.{
  World, Event, note_write, note_write_rejected, note_write_confirmed, sent,
}
use discord_stoat_ferry.Delivery.History.{Page, find_messages}
use discord_stoat_ferry.Delivery.Send.{Outcome, accepted, rejected, uncertain, failed}
use discord_stoat_ferry.Delivery.Legacy.{is_acknowledged, id_of}
use discord_stoat_ferry.Delivery.Parts.{Call, Answers, part_at, with_part, with_parts, with_status}
use discord_stoat_ferry.Delivery.Deliver.{
  with_fresh, with_event, recover, recover_part, pending_keys, look_up, dispatch, after_send,
  submitted, acknowledge, discard,
}
use discord_stoat_ferry.Delivery.Safety.{Safe, Covers, times_sent, key, AllNoted}
use discord_stoat_ferry.Delivery.Safety.Attempts.{
  Later-set, Later-map, Later-refl, get_elem?-set, below_max, attempt-recover_part,
  attempt-record_media,
}
use discord_stoat_ferry.Delivery.Safety.Keyed.{Decoded-at}
use discord_stoat_ferry.Delivery.Safety.Rules.{Post, continue-Post, lift-Post, raise_when-Post}
use discord_stoat_ferry.Delivery.Safety.Writing.{Written}
use discord_stoat_ferry.Delivery.Safety.Steps.{Ready, Kept, result-Kept, write-Ready, Tracks-Later}

-- No two identities have the same well-formed key.
abbrev pub NoCollision : Setup → Type 0
NoCollision setup =
    (ref other : DeliveryRef) (attempt other_attempt i j : ℕ)
    → is_delivery_key (key setup ref attempt i) ≡ true
    → key setup ref attempt i ≡ key setup other other_attempt j
    → (ref ≡ other) × (attempt ≡ other_attempt) × (i ≡ j)

module _ (setup : Setup) where
  -- The receipt in hand is the delivery's, and covers what was sent for it.
  pub record Held (ref : DeliveryRef) (receipt : DeliveryReceipt) (w : World) : Type 0 where
    pub ready : Ready setup ref receipt.parts w
    pub own : receipt.ref ≡ ref

  pub part_at-Post :
      (Q : DeliveryPart → World → Type 0) (E : World → Type 0) (receipt : DeliveryReceipt) (i : ℕ)
      (w : World)
      → ((part : DeliveryPart) → get_elem? receipt.parts i ≡ some part → Q part w)
      → E w
      → Post Q E (part_at receipt i w)
  part_at-Post Q E receipt i w q e = elim (Option-cases (get_elem? receipt.parts i)) [
    | inl h ↦ rw (part_at, h) e
    | inr (part, h) ↦ rw (part_at, h) (q part h)
  ]

  pub recover-Held :
      {ref : DeliveryRef} (call : Call) (receipt : DeliveryReceipt) (pages : List Page) {w : World}
      → Held ref receipt w
      → Post (λ found after. Held ref found after) (Safe setup) (recover setup call receipt pages w)
  unfolding recover
  recover-Held {ref} call receipt pages {w} h =
      continue-Post (λ matches after. Held ref receipt after) _ (Safe setup) _ _
        (lift-Post _ (Safe setup)
          (find_messages call.ref.destination_channel_id (pending_keys receipt.parts) pages) w
          (λ matches found. h) h.ready.safe)
        λ matches w1 h1.
          let found =
            with_parts receipt receipt.render_digest
              (map (recover_part setup matches) receipt.parts) in
          let later =
            Later-map (recover_part setup matches) (attempt-recover_part setup matches)
              receipt.parts in
          continue-Post
            (λ token after. Ready setup ref found.parts after × Written setup found w1 token after)
            _ (Safe setup) _ _
            (write-Ready setup found h1.ready h1.own (Tracks-Later setup h1.ready later))
            λ token w2 (ready, v).
              continue-Post (λ part after. Held ref found after) _ (Safe setup) _ _
                (part_at-Post _ (Safe setup) found call.part_index w2
                  (λ part at. record { ready = ready; own = h1.own }) ready.safe)
                λ part w3 h3.
                  continue-Post (λ _ after. Held ref found after) _ (Safe setup) _ _
                    (raise_when-Post _ (Safe setup) (not (is_acknowledged part)) unresolved w3
                      (λ _. h3) h3.ready.safe)
                    λ _ w4 h4. h4

  pub look_up-Kept :
      {ref : DeliveryRef} (call : Call) (receipt : DeliveryReceipt) (pages : List Page) {w : World}
      → Held ref receipt w
      → Kept setup (look_up setup call receipt pages w)
  look_up-Kept {ref} call receipt pages {w} h =
      continue-Post (λ found after. Held ref found after) (λ _ after. Safe setup after) (Safe setup)
        _ _ (recover-Held call receipt pages h)
        λ found after held.
          result-Kept setup found call.part_index true held.ready held.own (Later-refl found.parts)

  abbrev KeptAfter : {A : Type 0} → A → World → Type 0
  KeptAfter _ after = Safe setup after

  settle-Safe :
      {w : World} (event : Event)
      → (times_sent (event ∷ w.log) ≡ times_sent w.log)
      → (AllNoted w.log → AllNoted (event ∷ w.log))
      → Safe setup w
      → Safe setup (with_event event w)
  settle-Safe {w} event same noted s = record {
    recorded = λ ref attempt i h.
        s.recorded ref attempt i (subst (λ f. 0 < f (key setup ref attempt i)) same h);
    unsent = λ k h. ap (λ f. f k) same ∙ s.unsent k h;
    once = λ k. subst (λ f. f k ≤ 1) (sym same) (s.once k);
    noted = noted s.noted;
  }

  settle-Held :
      {ref : DeliveryRef} {receipt : DeliveryReceipt} {w : World}
      → Held ref receipt w
      → Held ref receipt (with_event note_write_rejected w)
  unfolding times_sent AllNoted
  settle-Held h = record {
    ready = record {
      safe = settle-Safe note_write_rejected refl (λ n. n) h.ready.safe;
      tracks = h.ready.tracks;
      owned = h.ready.owned;
    };
    own = h.own;
  }

  -- After the request, whatever its outcome.
  pub after_send-Kept :
      {ref : DeliveryRef} (call : Call) (receipt : DeliveryReceipt) (part : DeliveryPart)
      (pages : List Page) (outcome : Outcome) {w : World}
      → Held ref receipt w
      → get_elem? receipt.parts call.part_index ≡ some part
      → Kept setup (after_send setup call receipt part pages outcome w)
  unfolding after_send times_sent AllNoted
  after_send-Kept {ref} call receipt part pages (accepted message) {w} h at =
      let updated = acknowledge setup part message in
      let same : updated.attempt ≡ part.attempt =
        attempt-record_media setup.verify_uploads (with_status part acknowledged (id_of message))
          (some part.autumn_ids) message in
      continue-Post KeptAfter KeptAfter (Safe setup) _ _
        (result-Kept setup (with_part receipt call.part_index updated) call.part_index false h.ready
          h.own (Later-set receipt.parts call.part_index part updated at (omega (arith, same))))
        λ delivered after s. settle-Safe note_write_confirmed refl (λ n. n) s
  after_send-Kept {ref} call receipt part pages rejected {w} h at =
      let refused = with_status part confirmed_rejected part.message_id in
      let h1 = settle-Held h in
      let saved = with_part receipt call.part_index refused in
      let w1 = with_event note_write_rejected w in
      continue-Post
        (λ token after. Ready setup ref saved.parts after × Written setup saved w1 token after)
        KeptAfter (Safe setup) _ _
        (write-Ready setup saved h1.ready h1.own (
          Tracks-Later setup h1.ready
            (Later-set receipt.parts call.part_index part refused at (omega arith))))
        λ token after (ready, v). ready.safe
  after_send-Kept {ref} call receipt part pages uncertain {w} h at =
      continue-Post (λ found after. Held ref found after) KeptAfter (Safe setup) _ _
        (recover-Held call receipt pages h)
        λ found w1 h1.
          continue-Post
            (λ p after. Held ref found after × (get_elem? found.parts call.part_index ≡ some p))
            KeptAfter (Safe setup) _ _
            (part_at-Post _ (Safe setup) found call.part_index w1 (λ p e. (h1, e)) h1.ready.safe)
            λ p w2 (h2, e).
              continue-Post (λ _ after. Held ref found after) KeptAfter (Safe setup) _ _
                (raise_when-Post _ (Safe setup) (not (is_stoat_id p.message_id)) unresolved w2
                  (λ _. h2) h2.ready.safe)
                λ _ w3 h3. result-Kept setup _ call.part_index true h3.ready h3.own (
                  Later-set found.parts call.part_index p (with_status p acknowledged p.message_id)
                    e (omega arith))
  after_send-Kept call receipt part pages failed h at = h.ready.safe

  is_among-discard :
      (keys : List String) (k j : String)
      → is_among (discard keys k) j ≡ (not (str_eq k j) && is_among keys j)
  unfolding is_among discard
  is_among-discard [] k j = ground arith
  is_among-discard (x ∷ keys) k j =
      ground (arith, is_among-discard keys k j, eq_iff x k, eq_iff x j, eq_iff k j)

  abbrev after_request : World → String → DeliveryToken → World
  after_request w k token =
      let unmarked = with_fresh (discard w.fresh k) w in
      with_event (sent k (Dict.get w.disk token.receipt_id)) (with_event note_write unmarked)

  times_after :
      (log : List Event) (k : String) (held : Option DeliveryReceipt) (j : String)
      → times_sent (sent k held ∷ note_write ∷ log) j
        ≡ (if str_eq k j then suc (times_sent log j) else times_sent log j)
  unfolding times_sent
  times_after log k held j = refl

  -- The request is sent under a key of this session that was not used yet.
  sent-Held :
      (unique : NoCollision setup) {ref : DeliveryRef} (receipt : DeliveryReceipt)
      (part : DeliveryPart) (i : ℕ) {before w : World} {token : DeliveryToken}
      → Ready setup ref receipt.parts w
      → Written setup receipt before token w
      → receipt.ref ≡ ref
      → get_elem? receipt.parts i ≡ some part
      → part.key ≡ key setup ref part.attempt i
      → part.status ≡ part_uncertain
      → is_among w.fresh part.key ≡ true
      → Held ref receipt (after_request w part.key token)
  unfolding AllNoted
  sent-Held unique {ref} receipt part i {before} {w} {token} ready v own at keyed noted fresh =
      record {
        ready = record {
          safe = record {
            recorded = λ other attempt j h.
                elim (Bool-cases (str_eq part.key (key setup other attempt j))) [
                  | inl hit ↦
                      let (r, a, p) = same_identity other attempt j hit in
                      record {
                        receipt = receipt;
                        saved =
                            ap (λ x. Dict.get w.disk (setup.ref_hash x)) (sym r) ∙ on_disk ref own;
                        own = own ∙ r;
                        covered =
                            subst (λ n. Covers receipt.parts n j) a
                              (subst (λ n. Covers receipt.parts part.attempt n) p covers);
                      }
                  | inr miss ↦
                      ready.safe.recorded other attempt j
                        (earlier (key setup other attempt j) miss h)
                ];
            unsent = λ k h.
                let both : (not (str_eq part.key k) && is_among w.fresh k) ≡ true =
                  sym (is_among-discard w.fresh part.key k) ∙ h in
                ground (
                  arith,
                  both,
                  times_after w.log part.key (Dict.get w.disk token.receipt_id) k,
                  ready.safe.unsent k,
                );
            once = λ k. elim (Bool-cases (str_eq part.key k)) [
              | inl hit ↦
                  let same : part.key ≡ k = (eq_iff part.key k).0 hit in
                  let none_before : times_sent w.log k ≡ 0 =
                    subst (λ x. times_sent w.log x ≡ 0) same (ready.safe.unsent part.key fresh) in
                  ground (arith, times_after w.log part.key (Dict.get w.disk token.receipt_id) k)
              | inr miss ↦ ground (
                arith,
                times_after w.log part.key (Dict.get w.disk token.receipt_id) k,
                ready.safe.once k,
              )
            ];
            noted = (
              (
                receipt,
                ap (λ x. Dict.get w.disk x) v.id ∙ on_disk receipt.ref refl,
                i,
                part,
                at,
                refl,
                noted,
              ),
              ready.safe.noted,
            );
          };
          tracks = λ attempt j h. elim (Bool-cases (str_eq part.key (key setup ref attempt j))) [
            | inl hit ↦
                let (r, a, p) = same_identity ref attempt j hit in
                subst (λ n. Covers receipt.parts n j) a
                  (subst (λ n. Covers receipt.parts part.attempt n) p covers)
            | inr miss ↦ ready.tracks attempt j (earlier (key setup ref attempt j) miss h)
          ];
          owned = ready.owned;
        };
        own = own;
      }
    where
      covers : Covers receipt.parts part.attempt i
      covers = record {
        below_all = below_max receipt.parts i part at;
        below_own = λ q e.
            let same : part ≡ q = some-injective _ _ (sym at ∙ e) in
            subst (λ x. part.attempt ≤ x.attempt) same (omega arith);
      }

      on_disk :
          (x : DeliveryRef) → receipt.ref ≡ x → Dict.get w.disk (setup.ref_hash x) ≡ some receipt
      on_disk x e =
          let hash : setup.ref_hash receipt.ref ≡ setup.ref_hash x = ap (λ y. setup.ref_hash y) e in
          rw v.disk (
            get-put (setup.ref_hash receipt.ref) (setup.ref_hash x) receipt before.disk
            ∙ ground (arith, hash, eq_iff (setup.ref_hash receipt.ref) (setup.ref_hash x)))

      same_identity :
          (other : DeliveryRef) (attempt j : ℕ)
          → str_eq part.key (key setup other attempt j) ≡ true
          → (ref ≡ other) × (part.attempt ≡ attempt) × (i ≡ j)
      same_identity other attempt j hit =
          let good : is_delivery_key part.key ≡ true =
            (Decoded-at 0 receipt.parts v.decoded i part at).good_key in
          unique ref other part.attempt attempt i j
            (subst (λ k. is_delivery_key k ≡ true) keyed good)
            (sym keyed ∙ (eq_iff part.key (key setup other attempt j)).0 hit)

      earlier :
          (k : String)
          → str_eq part.key k ≡ false
          → 0 < times_sent (sent part.key (Dict.get w.disk token.receipt_id) ∷ note_write ∷ w.log) k
          → 0 < times_sent w.log k
      earlier k miss h =
          ground (arith, times_after w.log part.key (Dict.get w.disk token.receipt_id) k)

  pub dispatch-Kept :
      NoCollision setup
      → {ref : DeliveryRef} (call : Call) (answers : Answers) (receipt : DeliveryReceipt)
        (part : DeliveryPart) {w : World}
      → Held ref receipt w
      → get_elem? receipt.parts call.part_index ≡ some part
      → part.key ≡ key setup ref part.attempt call.part_index
      → is_among w.fresh part.key ≡ true
      → Kept setup (dispatch setup call answers receipt part w)
  unfolding dispatch
  dispatch-Kept unique {ref} call answers receipt part {w} h at keyed fresh =
      let open_part = submitted call part in
      let saved = with_part receipt call.part_index open_part in
      let at_saved = get_elem?-set receipt.parts call.part_index part open_part at in
      continue-Post (λ _ after. Held ref receipt after × (is_among after.fresh part.key ≡ true))
        KeptAfter (Safe setup) _ _
        (lift-Post _ (Safe setup) answers.permission w (λ _ _. (h, fresh)) h.ready.safe)
        λ _ w1 (h1, fresh1).
          continue-Post
            (λ token after. Ready setup ref saved.parts after × Written setup saved w1 token after)
            KeptAfter (Safe setup) _ _
            (write-Ready setup saved h1.ready h1.own (
              Tracks-Later setup h1.ready
                (Later-set receipt.parts call.part_index part open_part at (omega arith))))
            λ token w2 (ready, v).
              after_send-Kept call saved open_part answers.pages answers.outcome
                (sent-Held unique saved open_part call.part_index ready v h1.own at_saved keyed refl
                  (rw v.fresh fresh1))
                at_saved
