-- ===== src/Delivery/Safety/Steps.antt =====
-- Each step of `deliver_part` keeps the account of what was sent.
use mathlib.Core.Option.{some-injective}
use discord_stoat_ferry.Prelude.{
  ℕ, ◌<◌, ◌≡◌, refl, ap, sym, ◌∙◌, subst, String, str_eq, eq_iff, Bool, true, ◌||◌, some, List, [],
  ◌∷◌, ◌++◌, get_elem?, arith, Bool-cases, Option-cases, inl, inr,
}
use discord_stoat_ferry.Prelude.Result.{Result}
use discord_stoat_ferry.Prelude.Dict
use discord_stoat_ferry.Prelude.Dict.{Dict, get-put}
use discord_stoat_ferry.Delivery.Receipt.{
  DeliveryRef, DeliveryPart, DeliveryReceipt, DeliveryToken, DeliveryError, is_among,
}
use discord_stoat_ferry.Delivery.Keys.{Setup}
use discord_stoat_ferry.Delivery.Exec.{World}
use discord_stoat_ferry.Delivery.Files.{write_delivery_receipt}
use discord_stoat_ferry.Delivery.Parts.{part_at, result}
use discord_stoat_ferry.Delivery.Deliver.{prepare}
use discord_stoat_ferry.Delivery.Safety.{Safe, Owned, Tracks, Recorded, times_sent, key}
use discord_stoat_ferry.Delivery.Safety.Attempts.{Later, Covers-Later}
use discord_stoat_ferry.Delivery.Safety.Rules.{Post, continue-Post, Post-map}
use discord_stoat_ferry.Delivery.Safety.Writing.{Same, Written, write-Post}

module _ (setup : Setup) where
  -- During a call: the parts in hand cover what was sent for the delivery.
  pub record Ready (ref : DeliveryRef) (parts : List DeliveryPart) (w : World) : Type 0 where
    pub safe : Safe setup w
    pub tracks : Tracks setup w.log ref parts
    pub owned : Owned setup w.disk ref

  pub Safe-Same : {w after : World} → Same w after → Safe setup w → Safe setup after
  Safe-Same {w} {after} same s = record {
    recorded = λ ref attempt i h. rw same.disk (s.recorded ref attempt i (rw (← same.log) h));
    unsent = λ k h. rw same.log (s.unsent k (rw (← same.fresh) h));
    once = λ k. rw same.log (s.once k);
    noted = rw same.log s.noted;
  }

  Recorded-Written :
      {ref : DeliveryRef} {parts : List DeliveryPart} (receipt : DeliveryReceipt) {w after : World}
      {token : DeliveryToken}
      → Ready ref parts w
      → receipt.ref ≡ ref
      → Tracks setup w.log ref receipt.parts
      → Written setup receipt w token after
      → (other : DeliveryRef) (attempt i : ℕ) → 0 < times_sent w.log (key setup other attempt i)
      → Recorded setup after.disk other attempt i
  Recorded-Written {ref} receipt {w} {after} r own tracks v other attempt i h =
      let old = r.safe.recorded other attempt i h in
      elim (Bool-cases (str_eq (setup.ref_hash receipt.ref) (setup.ref_hash other))) [
        | inr apart ↦ record {
          receipt = old.receipt;
          saved = rw v.disk (
              get-put (setup.ref_hash receipt.ref) (setup.ref_hash other) receipt w.disk
              ∙ ground (arith, old.saved));
          own = old.own;
          covered = old.covered;
        }
        | inl equal ↦
            let hashes : setup.ref_hash receipt.ref ≡ setup.ref_hash other = (eq_iff _ _).0 equal in
            let mine : setup.ref_hash other ≡ setup.ref_hash ref =
              sym hashes ∙ ap (λ x. setup.ref_hash x) own in
            let same : other ≡ ref =
              sym old.own
              ∙ r.owned old.receipt (ap (λ x. Dict.get w.disk x) (sym mine) ∙ old.saved) in
            record {
              receipt = receipt;
              saved = rw v.disk (
                  get-put (setup.ref_hash receipt.ref) (setup.ref_hash other) receipt w.disk
                  ∙ ground arith);
              own = own ∙ sym same;
              covered =
                  tracks attempt i
                    (subst (λ x. 0 < times_sent w.log (key setup x attempt i)) same h);
            }
      ]

  pub Ready-Written :
      {ref : DeliveryRef} {parts : List DeliveryPart} (receipt : DeliveryReceipt) {w after : World}
      {token : DeliveryToken}
      → Ready ref parts w
      → receipt.ref ≡ ref
      → Tracks setup w.log ref receipt.parts
      → Written setup receipt w token after
      → Ready ref receipt.parts after
  Ready-Written {ref} receipt {w} {after} r own tracks v = record {
    safe = record {
      recorded = λ other attempt i h.
          Recorded-Written receipt r own tracks v other attempt i (rw (← v.log) h);
      unsent = λ k h. rw v.log (r.safe.unsent k (rw (← v.fresh) h));
      once = λ k. rw v.log (r.safe.once k);
      noted = rw v.log r.safe.noted;
    };
    tracks = λ attempt i h. tracks attempt i (rw (← v.log) h);
    owned = λ held h.
        let here : Dict.get (Dict.put w.disk (setup.ref_hash receipt.ref) receipt)
              (setup.ref_hash ref)
            ≡ some held =
          rw (← v.disk) h in
        let there : Dict.get (Dict.put w.disk (setup.ref_hash receipt.ref) receipt)
              (setup.ref_hash ref)
            ≡ some receipt =
          get-put (setup.ref_hash receipt.ref) (setup.ref_hash ref) receipt w.disk
          ∙ ground (
            arith,
            eq_iff (setup.ref_hash receipt.ref) (setup.ref_hash ref),
            ap (λ x. setup.ref_hash x) own,
          ) in
        let same : receipt ≡ held = some-injective _ _ (sym there ∙ here) in
        subst (λ x. x.ref ≡ ref) same own;
  }

  pub write-Ready :
      {ref : DeliveryRef} {parts : List DeliveryPart} (receipt : DeliveryReceipt) {w : World}
      → Ready ref parts w
      → receipt.ref ≡ ref
      → Tracks setup w.log ref receipt.parts
      → Post
          (λ token after. Ready ref receipt.parts after × Written setup receipt w token after)
          (Safe setup)
          (write_delivery_receipt setup receipt w)
  write-Ready {ref} receipt {w} r own tracks =
      Post-map (Written setup receipt w) _ (Same w) _ (write_delivery_receipt setup receipt w)
        (write-Post setup receipt w) (λ token after v. (Ready-Written receipt r own tracks v, v))
        (λ after same. Safe-Same same r.safe)

  pub Tracks-Later :
      {ref : DeliveryRef} {parts qs : List DeliveryPart} {w : World}
      → Ready ref parts w
      → Later parts qs
      → Tracks setup w.log ref qs
  Tracks-Later r l attempt i h = Covers-Later l (r.tracks attempt i h)

  is_among-append :
      (xs ys : List String) (k : String) → is_among (xs ++ ys) k ≡ (is_among xs k || is_among ys k)
  unfolding is_among
  is_among-append [] ys k = refl
  is_among-append (x ∷ xs) ys k = ground (arith, is_among-append xs ys k)

  -- After keys under which nothing was sent are written, they may be sent.
  pub prepare-Ready :
      {ref : DeliveryRef} {parts : List DeliveryPart} (receipt : DeliveryReceipt)
      (keys : List String) {w : World}
      → Ready ref parts w
      → receipt.ref ≡ ref
      → Tracks setup w.log ref receipt.parts
      → ((k : String) → is_among keys k ≡ true → times_sent w.log k ≡ 0)
      → Post (λ _ after. Ready ref receipt.parts after) (Safe setup) (prepare setup receipt keys w)
  unfolding prepare
  prepare-Ready {ref} receipt keys {w} r own tracks unused =
      continue-Post
        (λ token after. Ready ref receipt.parts after × Written setup receipt w token after) _
        (Safe setup) _ (write_delivery_receipt setup receipt w) (write-Ready receipt r own tracks)
        λ token after (ready, v). record {
          safe = record {
            recorded = ready.safe.recorded;
            unsent = λ k h. elim (Bool-cases (is_among keys k)) [
              | inl new ↦ rw v.log (unused k new)
              | inr old ↦ ready.safe.unsent k (ground (arith, is_among-append keys after.fresh k))
            ];
            once = ready.safe.once;
            noted = ready.safe.noted;
          };
          tracks = ready.tracks;
          owned = ready.owned;
        }

  part_at-Safe :
      (receipt : DeliveryReceipt) (i : ℕ) (w : World)
      → Safe setup w
      → Post (λ _ after. Safe setup after) (Safe setup) (part_at receipt i w)
  part_at-Safe receipt i w s = elim (Option-cases (get_elem? receipt.parts i)) [
    | inl h ↦ rw (part_at, h) s
    | inr (part, h) ↦ rw (part_at, h) s
  ]

  abbrev pub Kept : {A : Type 0} → Result DeliveryError A × World → Type 0
  Kept r = Post (λ _ after. Safe setup after) (Safe setup) r

  -- A receipt whose attempts did not go back may be saved and reported.
  pub result-Kept :
      {ref : DeliveryRef} {parts : List DeliveryPart} (receipt : DeliveryReceipt) (i : ℕ)
      (recovered : Bool) {w : World}
      → Ready ref parts w
      → receipt.ref ≡ ref
      → Later parts receipt.parts
      → Kept (result setup receipt i recovered w)
  unfolding result
  result-Kept {ref} receipt i recovered {w} r own later =
      continue-Post
        (λ token after. Ready ref receipt.parts after × Written setup receipt w token after)
        (λ _ after. Safe setup after) (Safe setup) _ (write_delivery_receipt setup receipt w)
        (write-Ready receipt r own (Tracks-Later r later))
        λ token after (ready, v).
          continue-Post (λ _ after. Safe setup after) (λ _ after. Safe setup after) (Safe setup) _
            (part_at receipt i after) (part_at-Safe receipt i after ready.safe) (λ part last s. s)
