-- ===== src/Delivery/Safety/Keyed.antt =====
-- Each part of a receipt has the key of its attempt and position: in a saved receipt because it is
-- checked, in a new one because it is made so.
use mathlib.Core.Option.{some-injective}
use discord_stoat_ferry.Prelude.{
  ℕ, zero, suc, ◌+◌, ◌≡◌, refl, ap, sym, ◌∙◌, subst, String, str_eq, eq_iff, true, some, List, [],
  ◌∷◌, get_elem?, arith, Bool-cases, inl, inr,
}
use discord_stoat_ferry.Prelude.Result.{ok, Result-cases, >>=-eq-ok}
use discord_stoat_ferry.Delivery.Receipt.{
  DeliveryRef, DeliveryPart, DeliveryReceipt, decode_parts, decode_delivery_receipt,
  decode_delivery_ref, is_delivery_key, has_right_message,
}
use discord_stoat_ferry.Delivery.Keys.{
  Setup, delivery_key, delivery_receipt_id, new_parts, new_part, keys_match,
}
use discord_stoat_ferry.Delivery.Safety.{key}

pub decode_delivery_ref_lem : (ref out : DeliveryRef) → decode_delivery_ref ref ≡ ok out → ref ≡ out
unfolding decode_delivery_ref
decode_delivery_ref_lem ref out h = ground arith

pub record Decoded (index : ℕ) (part : DeliveryPart) : Type 0 where
  pub position : part.index ≡ index
  pub good_key : is_delivery_key part.key ≡ true
  pub right_message : has_right_message part.status part.message_id ≡ true

abbrev pub DecodedFrom : ℕ → List DeliveryPart → Type 0
DecodedFrom index [] = Unit
DecodedFrom index (part ∷ parts) = Decoded index part × DecodedFrom (index + 1) parts

decode_parts_lem :
    (index : ℕ) (keys : List String) (parts out : List DeliveryPart)
    → decode_parts index keys parts ≡ ok out
    → (parts ≡ out) × DecodedFrom index parts
unfolding decode_parts
decode_parts_lem index keys [] out h = (cc, tt)
decode_parts_lem index keys (part ∷ parts) out h =
    elim (Result-cases (decode_parts (index + 1) (part.key ∷ keys) parts)) [
      | inl (x, failed) ↦ absurd (ground arith)
      | inr (rest, h6) ↦
          let (same, later) = decode_parts_lem (index + 1) (part.key ∷ keys) parts rest h6 in
          let end : part ∷ rest ≡ out = ground arith in
          (
            subst (λ r. part ∷ r ≡ out) (sym same) end,
            (
              record {
                position = ground arith;
                good_key = ground arith;
                right_message = ground arith;
              },
              later,
            ),
          )
    ]

-- Decoding changes nothing, and vouches for each part.
pub decode_delivery_receipt_lem :
    (receipt out : DeliveryReceipt)
    → decode_delivery_receipt receipt ≡ ok out
    → (receipt ≡ out) × DecodedFrom 0 receipt.parts
unfolding decode_delivery_receipt
decode_delivery_receipt_lem receipt out h = elim (Result-cases (decode_delivery_ref receipt.ref)) [
  | inl (x, failed) ↦ absurd (ground arith)
  | inr (ref, h4) ↦ elim (Result-cases (decode_parts 0 [] receipt.parts)) [
    | inl (x, failed) ↦ absurd (ground arith)
    | inr (parts, h7) ↦
        let same_ref = decode_delivery_ref_lem receipt.ref ref h4 in
        let (same_parts, decoded) = decode_parts_lem 0 [] receipt.parts parts h7 in
        (ground arith, decoded)
  ]
]

pub Decoded-at :
    (index : ℕ) (parts : List DeliveryPart)
    → DecodedFrom index parts
    → (i : ℕ) (p : DeliveryPart) → get_elem? parts i ≡ some p
    → Decoded (index + i) p
Decoded-at index [] d i p e = cc
Decoded-at index (q ∷ parts) (d, ds) zero p e =
    let same : q ≡ p = some-injective _ _ e in
    let here : index ≡ index + 0 = omega arith in
    subst (λ x. Decoded (index + 0) x) same (subst (λ n. Decoded n q) here d)
Decoded-at index (q ∷ parts) (d, ds) (suc i) p e =
    let there : (index + 1) + i ≡ index + suc i = omega arith in
    subst (λ n. Decoded n p) there (Decoded-at (index + 1) parts ds i p e)

module _ (setup : Setup) (ref : DeliveryRef) where
  pub delivery_key_lem :
      (attempt i : ℕ) (k : String)
      → delivery_key setup ref attempt i ≡ ok k
      → k ≡ key setup ref attempt i
  unfolding delivery_key
  delivery_key_lem attempt i k h = elim (Result-cases (delivery_receipt_id setup ref)) [
    | inl (x, failed) ↦ absurd (ground arith)
    | inr (id, h1) ↦ ground arith
  ]

  -- The parts from position `index` on have the keys of their attempts.
  abbrev pub KeyedFrom : ℕ → List DeliveryPart → Type 0
  KeyedFrom index [] = Unit
  KeyedFrom index (part ∷ parts) =
      (part.key ≡ key setup ref part.attempt index) × KeyedFrom (index + 1) parts

  pub Keyed-at :
      (index : ℕ) (parts : List DeliveryPart)
      → KeyedFrom index parts
      → (i : ℕ) (p : DeliveryPart) → get_elem? parts i ≡ some p
      → p.key ≡ key setup ref p.attempt (index + i)
  Keyed-at index [] d i p e = cc
  Keyed-at index (q ∷ parts) (d, ds) zero p e =
      let same : q ≡ p = some-injective _ _ e in
      let here : index ≡ index + 0 = omega arith in
      subst (λ x. x.key ≡ key setup ref x.attempt (index + 0)) same
        (subst (λ n. q.key ≡ key setup ref q.attempt n) here d)
  Keyed-at index (q ∷ parts) (d, ds) (suc i) p e =
      let there : (index + 1) + i ≡ index + suc i = omega arith in
      subst (λ n. p.key ≡ key setup ref p.attempt n) there (Keyed-at (index + 1) parts ds i p e)

  pub Keyed-saved :
      (index : ℕ) (parts : List DeliveryPart)
      → DecodedFrom index parts
      → keys_match setup ref parts ≡ ok true
      → KeyedFrom index parts
  unfolding keys_match
  Keyed-saved index [] d h = tt
  Keyed-saved index (part ∷ parts) (d, ds) h =
      let (k, h1, h2) = >>=-eq-ok (delivery_key setup ref part.attempt part.index) _ h in
      elim (Bool-cases (str_eq part.key k)) [
        | inl same ↦
            let own = (eq_iff part.key k).0 same in
            let h3 : keys_match setup ref parts ≡ ok true = ground arith in
            (
              subst (λ n. part.key ≡ key setup ref part.attempt n) d.position
                  (own ∙ delivery_key_lem part.attempt part.index k h1),
              Keyed-saved (index + 1) parts ds h3,
            )
        | inr differs ↦ absurd (ground arith)
      ]

  -- New parts have the one attempt, and its keys.
  abbrev pub NewFrom : ℕ → ℕ → List DeliveryPart → Type 0
  NewFrom attempt index [] = Unit
  NewFrom attempt index (part ∷ parts) =
      ((part.attempt ≡ attempt) × (part.key ≡ key setup ref attempt index))
      × NewFrom attempt (index + 1) parts

  pub new_parts_lem :
      (attempt index left : ℕ) (parts : List DeliveryPart)
      → new_parts setup ref attempt index left ≡ ok parts
      → NewFrom attempt index parts
  unfolding new_parts
  new_parts_lem attempt index zero parts h =
      let none_made : [] ≡ parts = cc in subst (NewFrom attempt index) none_made tt
  new_parts_lem attempt index (suc left) parts h =
      let (k, h1, h2) = >>=-eq-ok (delivery_key setup ref attempt index) _ h in
      let (rest, h3, h4) = >>=-eq-ok (new_parts setup ref attempt (index + 1) left) _ h2 in
      let made : new_part index k attempt ∷ rest ≡ parts = cc in
      subst (NewFrom attempt index) made (
        (refl, delivery_key_lem attempt index k h1),
        new_parts_lem attempt (index + 1) left rest h3,
      )

  pub Keyed-new :
      (attempt index : ℕ) (parts : List DeliveryPart)
      → NewFrom attempt index parts
      → KeyedFrom index parts
  Keyed-new attempt index [] n = tt
  Keyed-new attempt index (part ∷ parts) ((a, k), ns) =
      (k ∙ ap (λ x. key setup ref x index) (sym a), Keyed-new attempt (index + 1) parts ns)

  pub New-at :
      (attempt index : ℕ) (parts : List DeliveryPart)
      → NewFrom attempt index parts
      → (i : ℕ) (p : DeliveryPart) → get_elem? parts i ≡ some p
      → p.attempt ≡ attempt
  New-at attempt index [] n i p e = cc
  New-at attempt index (q ∷ parts) ((a, k), ns) zero p e =
      subst (λ x. x.attempt ≡ attempt) (some-injective _ _ e) a
  New-at attempt index (q ∷ parts) ((a, k), ns) (suc i) p e =
      New-at attempt (index + 1) parts ns i p e
