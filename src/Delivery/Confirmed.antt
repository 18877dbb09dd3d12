-- ===== src/Delivery/Confirmed.antt =====
-- What a call of `deliver_part` that returns has left in the receipt file.
pub mod Sending
pub mod Calls
use discord_stoat_ferry.Prelude.{
  ℕ, zero, suc, ◌+◌, ◌≡◌, refl, ap, sym, ◌∙◌, subst, String, str_eq, eq_iff, Bool, true, false, not,
  ◌&&◌, ◌||◌, Option, none, some, List, [], ◌∷◌, get_elem?, map, arith, Bool-cases, Option-cases,
  inl, inr, ltb, all,
}
use mathlib.Core.Option.{some-injective}
use discord_stoat_ferry.Prelude.Result.{Result, ok, err, Result-cases}
use discord_stoat_ferry.Prelude.Dict
use discord_stoat_ferry.Prelude.Dict.{Dict, get-put}
use discord_stoat_ferry.Prelude.Json.{Value}
use discord_stoat_ferry.Delivery.Receipt.{
  DeliveryPart, DeliveryReceipt, PartStatus, DeliveryError, has_right_message, prepared, uncertain,
  acknowledged, confirmed_rejected, value_error, state_error, unresolved, send_rejected,
  is_stoat_id, is_among, is_empty, is_hex_of,
}
use discord_stoat_ferry.Delivery.Keys.{Setup, delivery_key, new_parts}
use discord_stoat_ferry.Delivery.Exec.{
  World, note_write, note_write_rejected, note_write_confirmed, lift, raise_when, continue,
}
use discord_stoat_ferry.Delivery.Files.{write_delivery_receipt, read_delivery_receipt}
use discord_stoat_ferry.Delivery.History.{Page, find_messages, history_media}
use discord_stoat_ferry.Delivery.Legacy.{is_acknowledged, id_of, legacy_rows, is_other_render}
use discord_stoat_ferry.Delivery.Send.{Outcome, accepted, rejected, failed}
use discord_stoat_ferry.Delivery.Send
use discord_stoat_ferry.Delivery.Parts.{
  Call, Answers, DeliveryResult, part_at, result, with_part, with_parts, with_status, with_media,
  record_media,
}
use discord_stoat_ferry.Delivery.Deliver.{
  recover, recover_part, pending_keys, look_up, look_up_or_send, after_send, acknowledge, dispatch,
  submitted, deliver_open, retry, retried, deliver_by_status, deliver_saved, flag_media, rerender,
  rerender_if, establish, save_new, acknowledge_row, acknowledge_rows, deliver_found, deliver_part,
  saved_keys_match, prepare, with_event, new_receipt,
}
use discord_stoat_ferry.Delivery.Safety.Attempts.{get_elem?-set}
use discord_stoat_ferry.Delivery.Safety.Keyed.{Decoded-at}
use discord_stoat_ferry.Delivery.Safety.Rules.{
  Post, continue-Post, lift-Post, raise_when-Post, Post-map,
}
use discord_stoat_ferry.Delivery.Safety.Writing.{Same, Written, write-Post}
use discord_stoat_ferry.Delivery.Safety.Sending.{part_at-Post}

-- The receipt file says that the part was delivered as the message of the result.
pub record Confirmed (i : ℕ) (delivered : DeliveryResult) (w : World) : Type 0 where
  pub receipt : DeliveryReceipt
  pub part : DeliveryPart
  pub saved : Dict.get w.disk delivered.token.receipt_id ≡ some receipt
  pub at : get_elem? receipt.parts i ≡ some part
  pub status : part.status ≡ acknowledged
  pub message : part.message_id ≡ delivered.message_id
  pub identified : is_stoat_id delivered.message_id ≡ true
  pub resolved : delivered.fully_resolved ≡ all is_acknowledged receipt.parts

abbrev pub Any : World → Type 0
Any w = Unit

abbrev pub Whatever : {A : Type 0} → A → World → Type 0
Whatever _ w = Unit

module _ {A : Type 0} where
  pub anything : (r : Result DeliveryError A × World) → Post Whatever Any r
  anything (ok a, w) = tt
  anything (err e, w) = tt

pub acknowledged_part :
    (part : DeliveryPart) → not (is_acknowledged part) ≡ false → part.status ≡ acknowledged
acknowledged_part part h = by part.status refl
  where
    by : (status : PartStatus) → part.status ≡ status → part.status ≡ acknowledged
    by acknowledged e = e
    by prepared e = absurd (ground arith)
    by uncertain e = absurd (ground arith)
    by confirmed_rejected e = absurd (ground arith)

module _ (setup : Setup) (i : ℕ) where
  pub result_confirms :
      (receipt : DeliveryReceipt) (recovered : Bool) (w : World)
      → ((part : DeliveryPart) → get_elem? receipt.parts i ≡ some part → part.status ≡ acknowledged)
      → Post (Confirmed i) Any (result setup receipt i recovered w)
  unfolding result
  result_confirms receipt recovered w acks =
      continue-Post (Written setup receipt w) (Confirmed i) Any _ _
        (Post-map _ _ (Same w) Any (write_delivery_receipt setup receipt w)
          (write-Post setup receipt w) (λ token after v. v) (λ after s. tt))
        λ token after v.
          continue-Post (λ found last. (last ≡ after) × (get_elem? receipt.parts i ≡ some found))
            (Confirmed i) Any _ _
            (part_at-Post setup _ Any receipt i after (λ found e. (refl, e)) tt)
            λ found last (same_world, e).
              let acked = acks found e in
              let sound = Decoded-at 0 receipt.parts v.decoded i found e in
              record {
                receipt = receipt;
                part = found;
                saved =
                    rw (same_world, v.disk, v.id)
                      (get-put (setup.ref_hash receipt.ref) (setup.ref_hash receipt.ref) receipt
                          w.disk
                        ∙ ground (
                          arith,
                          eq_iff (setup.ref_hash receipt.ref) (setup.ref_hash receipt.ref),
                        ));
                at = e;
                status = acked;
                message = refl;
                identified =
                    subst (λ s. has_right_message s found.message_id ≡ true) acked
                      sound.right_message;
                resolved = refl;
              }

  pub result-Confirmed :
      (receipt : DeliveryReceipt) (part : DeliveryPart) (recovered : Bool) (w : World)
      → get_elem? receipt.parts i ≡ some part
      → part.status ≡ acknowledged
      → Post (Confirmed i) Any (result setup receipt i recovered w)
  result-Confirmed receipt part recovered w at status =
      result_confirms receipt recovered w
        λ found e. subst (λ x. x.status ≡ acknowledged) (some-injective _ _ (sym at ∙ e)) status
