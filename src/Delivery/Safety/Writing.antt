-- ===== src/Delivery/Safety/Writing.antt =====
-- What writing and reading a receipt file does to the state.
use discord_stoat_ferry.Prelude.{
  ◌≡◌, refl, ap, sym, ◌∙◌, subst, String, eq_iff, true, ◌&&◌, Option, none, some, arith, Bool-cases,
  inl, inr,
}
use mathlib.Core.Option.{some-injective}
use discord_stoat_ferry.Prelude.Result.{ok, Result-cases}
use discord_stoat_ferry.Prelude.Dict
use discord_stoat_ferry.Prelude.Dict.{Dict, get-put}
use discord_stoat_ferry.Delivery.Receipt.{
  DeliveryRef, DeliveryReceipt, DeliveryToken, DeliveryFamily, ordinary, merged, header, separator,
  forum_index, decode_delivery_receipt, decode_delivery_ref,
}
use discord_stoat_ferry.Delivery.Keys.{Setup, delivery_receipt_id}
use discord_stoat_ferry.Delivery.Exec.{World}
use discord_stoat_ferry.Delivery.Files.{
  write_delivery_receipt, read_delivery_receipt, is_bound, same_ref, same_family, next_fault,
  with_faults, later_faults, checked,
}
use discord_stoat_ferry.Delivery.Safety.Rules.{Post}
use discord_stoat_ferry.Delivery.Safety.Keyed.{
  DecodedFrom, decode_delivery_receipt_lem, decode_delivery_ref_lem,
}

-- Nothing but the faults to come has changed.
pub record Same (w after : World) : Type 0 where
  pub disk : after.disk ≡ w.disk
  pub fresh : after.fresh ≡ w.fresh
  pub log : after.log ≡ w.log

same_family_lem : (a b : DeliveryFamily) → same_family a b ≡ true → a ≡ b
same_family_lem ordinary ordinary h = refl
same_family_lem merged merged h = refl
same_family_lem header header h = refl
same_family_lem separator separator h = refl
same_family_lem forum_index forum_index h = refl
same_family_lem ordinary merged h = cc
same_family_lem ordinary header h = cc
same_family_lem ordinary separator h = cc
same_family_lem ordinary forum_index h = cc
same_family_lem merged ordinary h = cc
same_family_lem merged header h = cc
same_family_lem merged separator h = cc
same_family_lem merged forum_index h = cc
same_family_lem header ordinary h = cc
same_family_lem header merged h = cc
same_family_lem header separator h = cc
same_family_lem header forum_index h = cc
same_family_lem separator ordinary h = cc
same_family_lem separator merged h = cc
same_family_lem separator header h = cc
same_family_lem separator forum_index h = cc
same_family_lem forum_index ordinary h = cc
same_family_lem forum_index merged h = cc
same_family_lem forum_index header h = cc
same_family_lem forum_index separator h = cc

pub same_ref_lem : (a b : DeliveryRef) → same_ref a b ≡ true → a ≡ b
unfolding same_ref
same_ref_lem a b h =
    let c = (eq_iff a.source_channel_id b.source_channel_id).0 (ground arith) in
    let m = (eq_iff a.source_message_id b.source_message_id).0 (ground arith) in
    let d = (eq_iff a.destination_channel_id b.destination_channel_id).0 (ground arith) in
    let f = same_family_lem a.family b.family (ground arith) in
    let g = (eq_iff a.generation b.generation).0 (ground arith) in cc

module _ (setup : Setup) where
  pub record Written (receipt : DeliveryReceipt) (w : World) (token : DeliveryToken) (after : World)
      : Type 0 where
    pub disk : after.disk ≡ Dict.put w.disk (setup.ref_hash receipt.ref) receipt
    pub fresh : after.fresh ≡ w.fresh
    pub log : after.log ≡ w.log
    pub id : token.receipt_id ≡ setup.ref_hash receipt.ref
    pub decoded : DecodedFrom 0 receipt.parts

  receipt_id_lem :
      (ref : DeliveryRef) (id : String)
      → delivery_receipt_id setup ref ≡ ok id
      → id ≡ setup.ref_hash ref
  unfolding delivery_receipt_id
  receipt_id_lem ref id h = elim (Result-cases (decode_delivery_ref ref)) [
    | inl (x, failed) ↦ absurd (ground arith)
    | inr (out, h1) ↦
        let same = decode_delivery_ref_lem ref out h1 in
        let made : setup.ref_hash out ≡ id = ground arith in
        sym made ∙ ap (λ x. setup.ref_hash x) (sym same)
  ]

  pub write-Post :
      (receipt : DeliveryReceipt) (w : World)
      → Post (Written receipt w) (Same w) (write_delivery_receipt setup receipt w)
  unfolding write_delivery_receipt
  write-Post receipt w = elim (Result-cases (decode_delivery_receipt receipt)) [
    | inl (x, h) ↦ rw h (record { disk = refl; fresh = refl; log = refl })
    | inr (out, h) ↦
        let (same, decoded) = decode_delivery_receipt_lem receipt out h in
        let h1 : decode_delivery_receipt receipt ≡ ok receipt = h ∙ ap ok (sym same) in
        elim (Bool-cases (is_bound setup receipt)) [
          | inr b ↦ rw (h1, b) (record { disk = refl; fresh = refl; log = refl })
          | inl b ↦ elim (Result-cases (delivery_receipt_id setup receipt.ref)) [
            | inl (x, d) ↦ rw (h1, b, d) (record { disk = refl; fresh = refl; log = refl })
            | inr (id, d) ↦ elim (Bool-cases (next_fault w.faults)) [
              | inl f ↦ rw (h1, b, d, f) (record { disk = refl; fresh = refl; log = refl })
              | inr f ↦
                  rw (h1, b, d, f)
                    (record {
                      disk = ap (λ i. Dict.put w.disk i receipt) (receipt_id_lem receipt.ref id d);
                      fresh = refl;
                      log = refl;
                      id = receipt_id_lem receipt.ref id d;
                      decoded = decoded;
                    })
            ]
          ]
        ]
  ]

  -- A receipt was read, or there is none.
  pub record Read (ref : DeliveryRef) (w : World) (saved : Option DeliveryReceipt) (after : World)
      : Type 0 where
    pub same : Same w after
    pub held : Dict.get w.disk (setup.ref_hash ref) ≡ saved
    pub own :
        (receipt : DeliveryReceipt)
        → saved ≡ some receipt
        → (receipt.ref ≡ ref) × DecodedFrom 0 receipt.parts

  checked-Post :
      (ref : DeliveryRef) (w after : World) (held : Option DeliveryReceipt)
      → Same w after
      → Dict.get w.disk (setup.ref_hash ref) ≡ held
      → Post (Read ref w) (Same w) (checked setup ref held after)
  checked-Post ref w after none same e = record { same = same; held = e; own = λ r h. cc }
  checked-Post ref w after (some receipt) same e =
      elim (Result-cases (decode_delivery_receipt receipt)) [
        | inl (x, h) ↦ rw h same
        | inr (out, h) ↦
            let (equal, decoded) = decode_delivery_receipt_lem receipt out h in
            let h1 : decode_delivery_receipt receipt ≡ ok receipt = h ∙ ap ok (sym equal) in
            elim (Bool-cases (is_bound setup receipt && same_ref receipt.ref ref)) [
              | inr b ↦ rw (h1, b) same
              | inl b ↦
                  rw (h1, b)
                    (record {
                      same = same;
                      held = e;
                      own = λ r s.
                          let here : receipt ≡ r = some-injective _ _ s in
                          subst (λ x. (x.ref ≡ ref) × DecodedFrom 0 x.parts) here
                            (same_ref_lem receipt.ref ref (ground arith), decoded);
                    })
            ]
      ]

  pub Read-Post :
      (ref : DeliveryRef) (w : World)
      → Post (Read ref w) (Same w) (read_delivery_receipt setup ref w)
  unfolding read_delivery_receipt
  Read-Post ref w = elim (Result-cases (delivery_receipt_id setup ref)) [
    | inl (x, h) ↦ rw h (record { disk = refl; fresh = refl; log = refl })
    | inr (id, h) ↦ elim (Bool-cases (next_fault w.faults)) [
      | inl f ↦ rw (h, f) (record { disk = refl; fresh = refl; log = refl })
      | inr f ↦
          rw (h, f)
            (checked-Post ref w (with_faults w (later_faults w.faults)) (Dict.get w.disk id)
              (record { disk = refl; fresh = refl; log = refl })
              (ap (λ i. Dict.get w.disk i) (sym (receipt_id_lem ref id h))))
    ]
  ]
