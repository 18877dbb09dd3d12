-- ===== src/Delivery/Retry/Contexts.antt =====
-- migrator/delivery.py: what `retry_delivery_context` returns, and why it raises.
use discord_stoat_ferry.Prelude.{
  ◌≡◌, refl, String, str_eq, eq_iff, Bool, true, false, ◌&&◌, Option, none, some, List, inl, inr,
  ◌⊎◌, arith, Bool-cases,
}
use discord_stoat_ferry.Prelude.Result.{Result, ok, err}
use discord_stoat_ferry.Prelude.Dict
use discord_stoat_ferry.Delivery.Receipt.{
  DeliveryFamily, ordinary, merged, header, separator, forum_index, DeliveryRef, DeliveryReceipt,
  DeliveryError, unresolved,
}
use discord_stoat_ferry.Delivery.Keys.{Setup}
use discord_stoat_ferry.Delivery.Exec.{World, raise_when, ◌>>=◌, ◌>>◌}
use discord_stoat_ferry.Delivery.Files.{read_delivery_receipt, same_ref}
use discord_stoat_ferry.Delivery.Safety.Rules.{Post, continue-Post}
use discord_stoat_ferry.Delivery.Safety.Writing.{Same, Read, Read-Post, same_ref_lem}
use discord_stoat_ferry.Delivery.Retry.{
  FailedMessage, legacy_prefix, legacy_context, preserved, preserved_or_legacy, context_of,
  retry_delivery_context,
}
use discord_stoat_ferry.Delivery.Retry.Evidence.{
  first_of, Context, by_recorded, by_receipt, by_legacy_keys, Refused, other_source, no_namespace,
  not_preserved, unreadable, no_legacy_keys, IsSelected,
}

module _ {A : Type 0} where
  Post-both :
      (Q R : A → World → Type 0) (E F : World → Type 0) (r : Result DeliveryError A × World)
      → Post Q E r
      → Post R F r
      → Post (λ a w. Q a w × R a w) (λ w. E w × F w) r
  Post-both Q R E F (ok a, w) p q = (p, q)
  Post-both Q R E F (err e, w) p q = (p, q)

  -- A run ends in a raise only as it does.
  raised_itself :
      (x r : Result DeliveryError A × World)
      → x ≡ r
      → Post (λ a w. Unit {0}) (λ w. (e : DeliveryError) × (x ≡ (err e, w))) r
  raised_itself x (ok a, w) h = tt
  raised_itself x (err e, w) h = (e, h)

module _ (setup : Setup) (ref : DeliveryRef) (w : World) where
  abbrev Known : Option DeliveryRef → (DeliveryRef × List String) → World → Type 0
  Known noted (chosen, keys) after = Context setup ref noted w chosen keys × Same w after

  abbrev Raised : Option DeliveryRef → World → Type 0
  Raised noted after = Refused setup ref noted w × Same w after

  -- The receipt of a delivery, as it is found.
  abbrev Found : DeliveryRef → Option DeliveryReceipt → World → Type 0
  Found chosen saved after =
      Same w after
      × (Dict.get w.disk (setup.ref_hash chosen) ≡ saved)
      × ((receipt : DeliveryReceipt) → saved ≡ some receipt → receipt.ref ≡ chosen)

  legacy-Known :
      (after : World) (family : DeliveryFamily)
      → ref.family ≡ family
      → Same w after
      → (str_eq setup.namespace "" ≡ true) ⊎ (Dict.get w.disk (setup.ref_hash ref) ≡ none)
      → Post (Known none) (Raised none) (legacy_context ref (legacy_prefix family) after)
  legacy-Known after ordinary is same why = (by_legacy_keys "ferry" refl why (inl (is, refl)), same)
  legacy-Known after merged is same why =
      (by_legacy_keys "ferry-merge" refl why (inr (is, refl)), same)
  legacy-Known after header is same why = (no_legacy_keys refl why (inl is), same)
  legacy-Known after separator is same why = (no_legacy_keys refl why (inr (inl is)), same)
  legacy-Known after forum_index is same why = (no_legacy_keys refl why (inr (inr is)), same)

  preserved-Known :
      (recorded : DeliveryRef) (saved : Option DeliveryReceipt) (after : World)
      → first_of recorded ≡ first_of ref
      → str_eq setup.namespace "" ≡ false
      → Found recorded saved after
      → Post (Known (some recorded)) (Raised (some recorded)) (preserved recorded saved after)
  preserved-Known recorded none after base bound (same, at, own) =
      (not_preserved recorded refl at, same)
  preserved-Known recorded (some receipt) after base bound (same, at, own) =
      (by_recorded recorded refl base bound (receipt, at, own receipt refl), same)

  preserved_or_legacy-Known :
      (saved : Option DeliveryReceipt) (after : World)
      → str_eq setup.namespace "" ≡ false
      → Found ref saved after
      → Post (Known none) (Raised none) (preserved_or_legacy ref saved after)
  preserved_or_legacy-Known none after bound (same, at, own) =
      legacy-Known after ref.family refl same (inr at)
  preserved_or_legacy-Known (some receipt) after bound (same, at, own) =
      (by_receipt refl bound (receipt, at, own receipt refl), same)

  read-Found :
      (noted : Option DeliveryRef) (chosen : DeliveryRef)
      → (noted ≡ some chosen) ⊎ ((noted ≡ none) × (chosen ≡ ref))
      → Post (Found chosen) (Raised noted) (read_delivery_receipt setup chosen w)
  read-Found noted chosen why = go (read_delivery_receipt setup chosen w) (
      Post-both (Read setup chosen w) _ (Same w) _ (read_delivery_receipt setup chosen w)
        (Read-Post setup chosen w)
        (raised_itself (read_delivery_receipt setup chosen w) (read_delivery_receipt setup chosen w)
          refl))
    where
      go :
          (r : Result DeliveryError (Option DeliveryReceipt) × World)
          → Post
              (λ saved after. Read setup chosen w saved after × Unit {0})
              (λ after.
                Same w after
                × ((e : DeliveryError) × (read_delivery_receipt setup chosen w ≡ (err e, after))))
              r
          → Post (Found chosen) (Raised noted) r
      go (ok saved, after) (read, _) = (read.same, read.held, λ receipt e. (read.own receipt e).0)
      go (err error, after) (same, (e, is)) = (unreadable chosen e after why is, same)

  unchanged : Same w w
  unchanged = record { disk = refl; fresh = refl; log = refl }

  same_source :
      (recorded : DeliveryRef)
      → same_ref (first_of recorded) (first_of ref) ≡ true
      → first_of recorded ≡ first_of ref
  same_source recorded h = same_ref_lem (first_of recorded) (first_of ref) h

  context-Known :
      (noted : Option DeliveryRef) (unbound : Bool)
      → str_eq setup.namespace "" ≡ unbound
      → Post (Known noted) (Raised noted) (context_of setup ref noted unbound w)
  context-Known none true e = legacy-Known w ref.family refl unchanged (inl e)
  context-Known none false e =
      continue-Post (Found ref) (Known none) (Raised none) _ _
        (read-Found none ref (inr (refl, refl)))
        λ saved after found. preserved_or_legacy-Known saved after e found
  context-Known (some recorded) unbound e =
      elim (Bool-cases (same_ref (first_of recorded) (first_of ref))) [
        | inr differs ↦ rw differs (other_source recorded refl differs, unchanged)
        | inl same ↦ rw same (bound unbound e (same_source recorded same))
      ]
    where
      bound :
          (b : Bool)
          → str_eq setup.namespace "" ≡ b
          → first_of recorded ≡ first_of ref
          → Post (Known (some recorded)) (Raised (some recorded)) (
              (do
                raise_when b unresolved
                saved ← read_delivery_receipt setup recorded
                preserved recorded saved)
                w)
      bound true h base = (no_namespace recorded refl h, unchanged)
      bound false h base =
          continue-Post (Found recorded) (Known (some recorded)) (Raised (some recorded)) _ _
            (read-Found (some recorded) recorded (inl refl))
            λ saved after found. preserved-Known recorded saved after base h found

-- A retry is never planned over preserved evidence, and refused only for a reason. If the context of a
-- retry is returned, the selected delivery is of the failed message and to its channel, and either the
-- failure recorded an attempt, which is of the selected delivery but for the generation, the migration has
-- a namespace and the attempt's receipt is there, and the context is this attempt without keys; or
-- none was recorded, the migration has a namespace and the receipt of the selected delivery is
-- there, and the context is this delivery without keys; or none was recorded, there is no namespace
-- or no receipt, and the context is the delivery with the two keys of its family in older versions.
-- If it raises, the message or the channel differs, or one of the reasons of `Refused` holds. Neither
-- changes the receipt files, the prepared keys or the requests made.
pub retry_delivery_context-Context :
    (setup : Setup) (ref : DeliveryRef) (failure : FailedMessage) (w : World)
    → Post
        (λ (context : DeliveryRef × List String) after.
          IsSelected ref failure
          × Context setup ref failure.delivery_ref w context.0 context.1
          × Same w after)
        (λ after.
          ((IsSelected ref failure → ⊥) ⊎ Refused setup ref failure.delivery_ref w) × Same w after)
        (retry_delivery_context setup ref failure w)
unfolding retry_delivery_context
retry_delivery_context-Context setup ref failure w =
    elim (Bool-cases (
      str_eq failure.discord_msg_id ref.source_message_id
      && str_eq failure.stoat_channel_id ref.destination_channel_id)) [
        | inr differs ↦
            rw differs (inl (λ selected. mismatch selected differs), unchanged setup ref w)
        | inl same ↦ rw same (
            widen (context_of setup ref failure.delivery_ref (str_eq setup.namespace "") w)
              (context-Known setup ref w failure.delivery_ref (str_eq setup.namespace "") refl)
              (record {
                message = (eq_iff failure.discord_msg_id ref.source_message_id).0 (ground arith);
                channel =
                    (eq_iff failure.stoat_channel_id ref.destination_channel_id).0 (ground arith);
              }))
      ]
  where
    mismatch :
        IsSelected ref failure
        → (str_eq failure.discord_msg_id ref.source_message_id
            && str_eq failure.stoat_channel_id ref.destination_channel_id)
          ≡ false
        → ⊥
    mismatch selected differs =
        let message = (eq_iff failure.discord_msg_id ref.source_message_id).1 selected.message in
        let channel =
          (eq_iff failure.stoat_channel_id ref.destination_channel_id).1 selected.channel in
        cc

    widen :
        (r : Result DeliveryError (DeliveryRef × List String) × World)
        → Post (Known setup ref w failure.delivery_ref) (Raised setup ref w failure.delivery_ref) r
        → IsSelected ref failure
        → Post
            (λ (context : DeliveryRef × List String) after.
              IsSelected ref failure
              × Context setup ref failure.delivery_ref w context.0 context.1
              × Same w after)
            (λ after.
              ((IsSelected ref failure → ⊥) ⊎ Refused setup ref failure.delivery_ref w)
              × Same w after)
            r
    widen (ok context, after) (known, same) selected = (selected, known, same)
    widen (err error, after) (refused, same) selected = (inr refused, same)
