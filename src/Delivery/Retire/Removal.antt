-- ===== src/Delivery/Retire/Removal.antt =====
-- Which receipt files `save_state` removes.
use mathlib.Core.Option.{some-injective}
use discord_stoat_ferry.Prelude.{
  ◌≡◌, sym, ◌∙◌, ap, subst, String, str_eq, eq_iff, Bool, true, not, ◌&&◌, ◌||◌, Option, none, some,
  List, [], ◌∷◌, all, All, arith, Bool-cases, Option-cases, inl, inr, ◌⊎◌,
}
use discord_stoat_ferry.Prelude.Result.{ok, Result-cases}
use discord_stoat_ferry.Prelude.Dict
use discord_stoat_ferry.Prelude.Dict.{Dict, get-remove}
use discord_stoat_ferry.Delivery.Receipt.{DeliveryReceipt, decode_delivery_receipt}
use discord_stoat_ferry.Delivery.Keys.{Setup, delivery_receipt_id}
use discord_stoat_ferry.Delivery.Legacy.{is_acknowledged}
use discord_stoat_ferry.Delivery.Safety.Keyed.{decode_delivery_receipt_lem}
use discord_stoat_ferry.Delivery.Retire.{
  Markers, Retirement, consumed, retirement, with_retirement, first_message, is_booked,
  consumed_deliveries, clear_completed_replacement, with_replacements, remove_file,
  retire_deliveries, retire_consumed_deliveries, save_deliveries,
}

-- Every part was delivered, and the first message is booked.
abbrev pub Finished : Markers → String → DeliveryReceipt → Type 0
Finished state id receipt =
    (all is_acknowledged receipt.parts ≡ true)
    × (is_booked (Dict.get state.bookkeeping id) (first_message receipt.parts) ≡ true)

abbrev Allowed : Markers → Dict DeliveryReceipt → String → Type 0
Allowed state disk id =
    (receipt : DeliveryReceipt) → Dict.get disk id ≡ some receipt → Finished state id receipt

module _ (setup : Setup) (state : Markers) where
  consumed_lem :
      (id digest : String) (saved : DeliveryReceipt) (one : Retirement)
      → consumed setup state id digest (some saved) ≡ ok (some one)
      → (one.token.receipt_id ≡ id) × Finished state id saved
  unfolding consumed
  consumed_lem id digest saved one h = elim (Bool-cases (str_eq (setup.text_hash saved) digest)) [
    | inr changed ↦ absurd (ground arith)
    | inl kept ↦ elim (Result-cases (decode_delivery_receipt saved)) [
      | inl (x, bad) ↦ absurd (ground arith)
      | inr (receipt, decoded) ↦ elim (Result-cases (delivery_receipt_id setup receipt.ref)) [
        | inl (x, bad) ↦ absurd (ground arith)
        | inr (own_id, named) ↦
            let (same, parts) = decode_delivery_receipt_lem saved receipt decoded in
            elim (Bool-cases (
              all is_acknowledged receipt.parts
              && is_booked (Dict.get state.bookkeeping id) (first_message receipt.parts))) [
                | inr open_part ↦ absurd (ground arith)
                | inl finished ↦
                    let made : retirement id digest receipt ≡ one = ground arith in
                    (
                      ap (λ x. x.token.receipt_id) (sym made),
                      subst (λ x. Finished state id x) (sym same) (ground arith, ground arith),
                    )
              ]
      ]
    ]
  ]

  consumed_deliveries_lem :
      (disk : Dict DeliveryReceipt) (ready : Dict String) (retirements : List Retirement)
      → consumed_deliveries setup state disk ready ≡ ok retirements
      → All (λ (one : Retirement). Allowed state disk one.token.receipt_id) retirements
  unfolding consumed_deliveries consumed
  consumed_deliveries_lem disk [] retirements h =
      let same : [] ≡ retirements = cc in
      subst (λ x. All (λ (one : Retirement). Allowed state disk one.token.receipt_id) x) same tt
  consumed_deliveries_lem disk ((id, digest) ∷ ready) retirements h =
      elim (Result-cases (consumed setup state id digest (Dict.get disk id))) [
        | inl (x, bad) ↦ absurd (ground arith)
        | inr (first, one_found) ↦
            elim (Result-cases (consumed_deliveries setup state disk ready)) [
              | inl (x, bad) ↦ absurd (ground arith)
              | inr (rest, rest_found) ↦
                  let same : with_retirement first rest ≡ retirements = ground arith in
                  subst (λ x. All (λ (one : Retirement). Allowed state disk one.token.receipt_id) x)
                    same
                    (with_first first rest one_found
                      (consumed_deliveries_lem disk ready rest rest_found))
            ]
      ]
    where
      with_first :
          (first : Option Retirement) (rest : List Retirement)
          → consumed setup state id digest (Dict.get disk id) ≡ ok first
          → All (λ (one : Retirement). Allowed state disk one.token.receipt_id) rest
          → All
              (λ (one : Retirement). Allowed state disk one.token.receipt_id)
              (with_retirement first rest)
      with_first none rest e a = a
      with_first (some one) rest e a = elim (Option-cases (Dict.get disk id)) [
        | inl gone ↦ absurd (cc (ap (λ x. consumed setup state id digest x) gone, e))
        | inr (saved, at) ↦
            let (named, finished) =
              consumed_lem id digest saved one
                (ap (λ x. consumed setup state id digest x) (sym at) ∙ e) in
            (
              subst (λ x. Allowed state disk x) (sym named)
                  (λ receipt held.
                    subst (λ x. Finished state id x) (some-injective _ _ (sym at ∙ held)) finished),
              a,
            )
      ]

  -- A file is left as it was, or its removal was asked for.
  remove_file_lem :
      (one : Retirement) (stuck : Bool) (markers : Markers) (disk : Dict DeliveryReceipt)
      (here : Option DeliveryReceipt) (id : String) (receipt : DeliveryReceipt)
      → Dict.get disk id ≡ some receipt
      → (let (next, left) = remove_file setup one stuck markers disk here in
          (Dict.get left id ≡ some receipt) ⊎ (one.token.receipt_id ≡ id))
  remove_file_lem one stuck markers disk none id receipt at = inl at
  remove_file_lem one stuck markers disk (some saved) id receipt at =
      elim (Bool-cases (not (str_eq (setup.text_hash saved) one.token.receipt_digest) || stuck)) [
        | inl kept ↦ rw kept (inl at)
        | inr removed ↦ rw removed (elim (Bool-cases (str_eq one.token.receipt_id id)) [
          | inl hit ↦ inr ((eq_iff one.token.receipt_id id).0 hit)
          | inr miss ↦ inl (get-remove one.token.receipt_id id disk ∙ rw miss at)
        ])
      ]

  retire_deliveries_lem :
      (stuck : String → Bool) (retirements : List Retirement) (markers next : Markers)
      (disk left : Dict DeliveryReceipt) (Asked : String → Type 0)
      → All (λ (one : Retirement). Asked one.token.receipt_id) retirements
      → retire_deliveries setup stuck retirements markers disk ≡ ok (next, left)
      → (id : String) (receipt : DeliveryReceipt) → Dict.get disk id ≡ some receipt
      → (Dict.get left id ≡ some receipt) ⊎ Asked id
  unfolding retire_deliveries
  retire_deliveries_lem stuck [] markers next disk left Asked a h id receipt at =
      let same : disk ≡ left = cc in inl (subst (λ x. Dict.get x id ≡ some receipt) same at)
  retire_deliveries_lem stuck (one ∷ retirements) markers next disk left Asked (a, rest) h id
        receipt at =
      elim (Result-cases (clear_completed_replacement setup markers.replacements one.receipt)) [
        | inl (x, bad) ↦ absurd (ground arith)
        | inr (replacements, cleared) ↦
            let after =
              remove_file setup one (stuck one.token.receipt_id)
                (with_replacements markers replacements) disk
                (Dict.get disk one.token.receipt_id) in
            elim (remove_file_lem one (stuck one.token.receipt_id)
              (with_replacements markers replacements) disk (Dict.get disk one.token.receipt_id) id
              receipt at) [
                | inr hit ↦ inr (subst Asked hit a)
                | inl still ↦
                    retire_deliveries_lem stuck retirements after.0 next after.1 left Asked rest
                      (ground arith) id receipt still
              ]
      ]

-- Evidence is removed only when it has been used up. Where the saving of the state removes a receipt
-- file, every part of the receipt in it is acknowledged, and the message of its first part is booked
-- for it; every other receipt file is left as it was.
pub save_deliveries-Finished :
    (setup : Setup) (stuck : String → Bool) (state next : Markers)
    (disk left : Dict DeliveryReceipt)
    → save_deliveries setup stuck state disk ≡ ok (next, left)
    → (id : String) (receipt : DeliveryReceipt) → Dict.get disk id ≡ some receipt
    → (Dict.get left id ≡ some receipt) ⊎ Finished state id receipt
unfolding save_deliveries retire_consumed_deliveries
save_deliveries-Finished setup stuck state next disk left h id receipt at =
    elim (Result-cases (consumed_deliveries setup state disk state.ready)) [
      | inl (x, bad) ↦ absurd (ground arith)
      | inr (retirements, found) ↦
          elim (Result-cases (retire_deliveries setup stuck retirements state disk)) [
            | inl (x, bad) ↦ absurd (ground arith)
            | inr ((markers, rest), retired) ↦
                let same : rest ≡ left = ground arith in
                elim (retire_deliveries_lem setup state stuck retirements state markers disk rest
                  (Allowed state disk)
                  (consumed_deliveries_lem setup state disk state.ready retirements found) retired
                  id receipt at) [
                    | inl still ↦ inl (subst (λ x. Dict.get x id ≡ some receipt) same still)
                    | inr allowed ↦ inr (allowed receipt at)
                  ]
          ]
    ]
