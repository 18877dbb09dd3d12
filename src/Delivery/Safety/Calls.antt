-- ===== src/Delivery/Safety/Calls.antt =====
-- A call of `deliver_part` keeps the account of what was sent.
use discord_stoat_ferry.Prelude.{
  ℕ, ◌+◌, ◌≡◌, refl, sym, ◌∙◌, subst, String, eq_iff, Bool, true, false, not, ◌&&◌, ◌||◌, some,
  List, [], ◌∷◌, get_elem?, arith, Bool-cases, Option-cases, inl, inr, ltb,
}
use discord_stoat_ferry.Delivery.Receipt.{
  DeliveryPart, DeliveryReceipt, PartStatus, prepared, uncertain, acknowledged, confirmed_rejected,
  send_rejected, is_among, is_empty,
}
use discord_stoat_ferry.Delivery.Keys.{Setup, delivery_key}
use discord_stoat_ferry.Delivery.Exec.{World}
use discord_stoat_ferry.Delivery.Parts.{Call, Answers, with_part}
use discord_stoat_ferry.Delivery.Deliver.{
  deliver_open, look_up_or_send, retry, retried, deliver_saved, deliver_by_status, flag_media,
  is_uncertain,
}
use discord_stoat_ferry.Delivery.Safety.{Safe, Covers, times_sent, key}
use discord_stoat_ferry.Delivery.Safety.Attempts.{Later-set, get_elem?-set}
use discord_stoat_ferry.Delivery.Safety.Keyed.{KeyedFrom, Keyed-at, delivery_key_lem}
use discord_stoat_ferry.Delivery.Safety.Rules.{continue-Post, lift-Post, raise_when-Post}
use discord_stoat_ferry.Delivery.Safety.Steps.{
  Ready, Kept, result-Kept, prepare-Ready, Tracks-Later,
}
use discord_stoat_ferry.Delivery.Safety.Sending.{
  NoCollision, Held, part_at-Post, look_up-Kept, dispatch-Kept,
}

module _ (setup : Setup) (unique : NoCollision setup) (call : Call) (answers : Answers) where
  abbrev pub KeptAfter : {A : Type 0} → A → World → Type 0
  KeptAfter _ after = Safe setup after

  deliver_open-Kept :
      (receipt : DeliveryReceipt) (part : DeliveryPart) {w : World}
      → Held setup call.ref receipt w
      → get_elem? receipt.parts call.part_index ≡ some part
      → part.key ≡ key setup call.ref part.attempt call.part_index
      → Kept setup (deliver_open setup call answers receipt part w)
  unfolding deliver_open
  deliver_open-Kept receipt part {w} h at keyed =
      chosen ((call.recover_only || is_uncertain part) || not (is_among w.fresh part.key)) refl
    where
      chosen :
          (look : Bool)
          → ((call.recover_only || is_uncertain part) || not (is_among w.fresh part.key)) ≡ look
          → Kept setup (look_up_or_send setup call answers receipt part look w)
      chosen true e = look_up-Kept setup call receipt answers.pages h
      chosen false e =
          dispatch-Kept setup unique call answers receipt part h at keyed (ground arith)

  -- A key of a later attempt than all that are covered was not sent.
  pub unsent_of_later :
      {parts : List DeliveryPart} {w : World} (attempt i : ℕ)
      → Ready setup call.ref parts w
      → (Covers parts attempt i → ⊥)
      → times_sent w.log (key setup call.ref attempt i) ≡ 0
  unsent_of_later {parts} {w} attempt i r later =
      elim (Bool-cases (ltb 0 (times_sent w.log (key setup call.ref attempt i)))) [
        | inl sent_before ↦ absurd (later (r.tracks attempt i (ground arith)))
        | inr unsent ↦ ground arith
      ]

  unused :
      (receipt : DeliveryReceipt) (part : DeliveryPart) (k : String) {w : World}
      → get_elem? receipt.parts call.part_index ≡ some part
      → Ready setup call.ref receipt.parts w
      → k ≡ key setup call.ref (part.attempt + 1) call.part_index
      → (j : String) → is_among (k ∷ []) j ≡ true
      → times_sent w.log j ≡ 0
  unfolding is_among
  unused receipt part k {w} at r keyed j hit =
      let same : k ≡ j = (eq_iff k j).0 (ground arith) in
      subst (λ x. times_sent w.log x ≡ 0) (sym keyed ∙ same)
        (unsent_of_later (part.attempt + 1) call.part_index r
          (λ c. omega (arith, c.below_own part at)))

  retry-Kept :
      (receipt : DeliveryReceipt) (part : DeliveryPart) {w : World}
      → Held setup call.ref receipt w
      → get_elem? receipt.parts call.part_index ≡ some part
      → Kept setup (retry setup call answers receipt part w)
  unfolding retry
  retry-Kept receipt part {w} h at =
      continue-Post (λ _ after. Held setup call.ref receipt after) KeptAfter (Safe setup) _ _
        (raise_when-Post _ (Safe setup) (not call.allow_rejected_retry || call.recover_only)
          send_rejected w (λ _. h) h.ready.safe)
        λ _ w1 h1.
          continue-Post
            (λ k after.
              Held setup call.ref receipt after
              × (k ≡ key setup call.ref (part.attempt + 1) call.part_index))
            KeptAfter (Safe setup) _ _
            (lift-Post _ (Safe setup)
              (delivery_key setup call.ref (part.attempt + 1) call.part_index) w1
              (λ k e. (h1, delivery_key_lem setup call.ref (part.attempt + 1) call.part_index k e))
              h1.ready.safe)
            λ k w2 (h2, keyed).
              let again = retried part k in
              let saved = with_part receipt call.part_index again in
              let later = Later-set receipt.parts call.part_index part again at (omega arith) in
              continue-Post (λ _ after. Ready setup call.ref saved.parts after) KeptAfter
                (Safe setup) _ _
                (prepare-Ready setup saved (k ∷ []) h2.ready h2.own
                  (Tracks-Later setup h2.ready later) (unused receipt part k at h2.ready keyed))
                λ _ w3 r3.
                  deliver_open-Kept saved again (record { ready = r3; own = h2.own })
                    (get_elem?-set receipt.parts call.part_index part again at) keyed

  attempt-flag_media : (part : DeliveryPart) → (flag_media setup part).attempt ≡ part.attempt
  attempt-flag_media part = elim (Option-cases part.association_status) [
    | inr (status, h) ↦ rw h refl
    | inl h ↦ elim (Bool-cases (setup.verify_uploads && not (is_empty part.autumn_ids))) [
      | inl b ↦ rw (h, b) refl
      | inr b ↦ rw (h, b) refl
    ]
  ]

  by_status :
      (receipt : DeliveryReceipt) (part : DeliveryPart) (status : PartStatus) {w : World}
      → Held setup call.ref receipt w
      → get_elem? receipt.parts call.part_index ≡ some part
      → part.key ≡ key setup call.ref part.attempt call.part_index
      → Kept setup (deliver_by_status setup call answers receipt part status w)
  by_status receipt part acknowledged h at keyed =
      result-Kept setup (with_part receipt call.part_index (flag_media setup part)) call.part_index
        true h.ready h.own
        (Later-set receipt.parts call.part_index part (flag_media setup part) at
          (omega (arith, attempt-flag_media part)))
  by_status receipt part confirmed_rejected h at keyed = retry-Kept receipt part h at
  by_status receipt part prepared h at keyed = deliver_open-Kept receipt part h at keyed
  by_status receipt part uncertain h at keyed = deliver_open-Kept receipt part h at keyed

  pub deliver_saved-Kept :
      (receipt : DeliveryReceipt) {w : World}
      → Held setup call.ref receipt w
      → KeyedFrom setup call.ref 0 receipt.parts
      → Kept setup (deliver_saved setup call answers receipt w)
  unfolding deliver_saved
  deliver_saved-Kept receipt {w} h keyed =
      continue-Post
        (λ part after.
          Held setup call.ref receipt after × (get_elem? receipt.parts call.part_index ≡ some part))
        KeptAfter (Safe setup) _ _
        (part_at-Post setup _ (Safe setup) receipt call.part_index w (λ part at. (h, at))
          h.ready.safe)
        λ part w1 (h1, at). by_status receipt part part.status h1 at (
          let e : 0 + call.part_index ≡ call.part_index = omega arith in
          subst (λ n. part.key ≡ key setup call.ref part.attempt n) e
            (Keyed-at setup call.ref 0 receipt.parts keyed call.part_index part at))
