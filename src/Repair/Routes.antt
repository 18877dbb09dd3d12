-- ===== src/Repair/Routes.antt =====
-- core/engine.py: `refs` of `_retry_message_candidates`, the ways a message may have gone.
use mathlib.Core.List.Memᴰ
use mathlib.Core.List.Memᴰ.{Memᴰ, head}
use discord_stoat_ferry.Prelude.{
  ◌≡◌, ◌↔◌, ◌⊎◌, refl, ap, String, str_eq, eq_iff, true, false, Option, none, some, Bool-cases, inl,
  inr,
}
use discord_stoat_ferry.Prelude.Dict
use discord_stoat_ferry.Prelude.Dict.{Dict}
use discord_stoat_ferry.Delivery.Receipt.{DeliveryRef, DeliveryFamily, ordinary, merged}
use discord_stoat_ferry.Messages.Merging.{FailedMessage}
use discord_stoat_ferry.Repair.Choices.{DceExport, parent_of, own_refs, merged_refs, refs_of}

-- The delivery of a message from its channel to the failure's, as it was first made.
abbrev pub delivery_to : FailedMessage → DceExport → String → DeliveryFamily → DeliveryRef
delivery_to failure export message family = record {
  source_channel_id = export.channel_id;
  source_message_id = message;
  destination_channel_id = failure.stoat_channel_id;
  family = family;
  generation = "base";
}

-- The parent of a thread, by its category or else by its name, became the channel.
abbrev pub HasParent : DceExport → Dict String → Dict String → String → Type 0
HasParent export channel_map parent_names channel =
    ((str_eq export.category_id "" ≡ true)
      × (Dict.get parent_names export.parent_channel_name ≡ some channel))
    ⊎ ((str_eq export.category_id "" ≡ false)
        × (Dict.get channel_map export.category_id ≡ some channel))

-- How a message of the export may have been sent to the failure's channel.
abbrev pub Route : FailedMessage → DceExport → Dict String → Dict String → DeliveryFamily → Type 0
Route failure export channel_map parent_names family =
    ((family ≡ ordinary) × (Dict.get channel_map export.channel_id ≡ some failure.stoat_channel_id))
    ⊎ ((family ≡ merged)
        × (export.is_thread ≡ true)
        × HasParent export channel_map parent_names failure.stoat_channel_id)

module _ (failure : FailedMessage) (export : DceExport) (message : String) where
  own_refs_sound :
      (channel : Option String) (ref : DeliveryRef)
      → Memᴰ ref (own_refs failure export message channel)
      → (channel ≡ some failure.stoat_channel_id)
        × (ref ≡ delivery_to failure export message ordinary)
  own_refs_sound none ref m = absurd (Memᴰ.not-nil m)
  own_refs_sound (some channel) ref m =
      elim (Bool-cases (str_eq channel failure.stoat_channel_id)) [
        | inl same ↦ (
          ap some ((eq_iff channel failure.stoat_channel_id).0 same),
          Memᴰ.eq_of_singleton (rw same at m),
        )
        | inr other ↦ absurd (Memᴰ.not-nil (rw other at m))
      ]

  own_refs_complete :
      (channel : Option String)
      → channel ≡ some failure.stoat_channel_id
      → Memᴰ (delivery_to failure export message ordinary) (own_refs failure export message channel)
  own_refs_complete channel h =
      let same : str_eq failure.stoat_channel_id failure.stoat_channel_id ≡ true =
        (eq_iff failure.stoat_channel_id failure.stoat_channel_id).1 refl in
      rw (h, same) (head refl)

  merged_refs_sound :
      (parent : Option String) (ref : DeliveryRef)
      → Memᴰ ref (merged_refs failure export message parent)
      → (parent ≡ some failure.stoat_channel_id) × (ref ≡ delivery_to failure export message merged)
  merged_refs_sound none ref m = absurd (Memᴰ.not-nil m)
  merged_refs_sound (some parent) ref m =
      elim (Bool-cases (str_eq parent failure.stoat_channel_id)) [
        | inl same ↦
            let equal = (eq_iff parent failure.stoat_channel_id).0 same in
            (ap some equal, rw (← equal) (Memᴰ.eq_of_singleton (rw same at m)))
        | inr other ↦ absurd (Memᴰ.not-nil (rw other at m))
      ]

  merged_refs_complete :
      (parent : Option String)
      → parent ≡ some failure.stoat_channel_id
      → Memᴰ (delivery_to failure export message merged) (merged_refs failure export message parent)
  merged_refs_complete parent h =
      let same : str_eq failure.stoat_channel_id failure.stoat_channel_id ≡ true =
        (eq_iff failure.stoat_channel_id failure.stoat_channel_id).1 refl in
      rw (h, same) (head refl)

module _ (failure : FailedMessage) (channel_map parent_names : Dict String) where
  parent_of-some_iff :
      (export : DceExport) (channel : String)
      → (parent_of export channel_map parent_names ≡ some channel)
        ↔ HasParent export channel_map parent_names channel
  parent_of-some_iff export channel = elim (Bool-cases (str_eq export.category_id "")) [
    | inl named ↦ rw named (λ h. inl (refl, h), λ h. by_name h)
    | inr placed ↦ rw placed (λ h. inr (refl, h), λ h. by_category h)
  ]
    where
      by_name :
          ((true ≡ true) × (Dict.get parent_names export.parent_channel_name ≡ some channel))
            ⊎ ((true ≡ false) × (Dict.get channel_map export.category_id ≡ some channel))
          → Dict.get parent_names export.parent_channel_name ≡ some channel
      by_name (inl h) = h.1
      by_name (inr h) = cc

      by_category :
          ((false ≡ true) × (Dict.get parent_names export.parent_channel_name ≡ some channel))
            ⊎ ((false ≡ false) × (Dict.get channel_map export.category_id ≡ some channel))
          → Dict.get channel_map export.category_id ≡ some channel
      by_category (inl h) = cc
      by_category (inr h) = h.1

  -- The refs are the ways the message may have gone.
  pub refs_of_sound :
      (export : DceExport) (message : String) (ref : DeliveryRef)
      → Memᴰ ref (refs_of failure export message channel_map parent_names)
      → (family : DeliveryFamily) × Route failure export channel_map parent_names family
        × (ref ≡ delivery_to failure export message family)
  refs_of_sound export message ref m =
      elim (Memᴰ.append_cases
        (own_refs failure export message (Dict.get channel_map export.channel_id)) m) [
          | inl own ↦
              let (there, is) =
                own_refs_sound failure export message (Dict.get channel_map export.channel_id) ref
                  own in
              (ordinary, inl (refl, there), is)
          | inr parent ↦ elim (Bool-cases export.is_thread) [
            | inl thread ↦
                let (there, is) =
                  merged_refs_sound failure export message
                    (parent_of export channel_map parent_names) ref (rw thread at parent) in
                (
                  merged,
                  inr (refl, thread, (parent_of-some_iff export failure.stoat_channel_id).0 there),
                  is,
                )
            | inr channel ↦ absurd (Memᴰ.not-nil (rw channel at parent))
          ]
        ]

  pub refs_of_complete :
      (export : DceExport) (message : String) (family : DeliveryFamily)
      → Route failure export channel_map parent_names family
      → Memᴰ
          (delivery_to failure export message family)
          (refs_of failure export message channel_map parent_names)
  refs_of_complete export message family (inl (is, there)) = rw is (
      Memᴰ.append_left _
        (own_refs_complete failure export message (Dict.get channel_map export.channel_id) there))
  refs_of_complete export message family (inr (is, thread, parent)) = rw is (
      Memᴰ.append_right (own_refs failure export message (Dict.get channel_map export.channel_id)) (
        rw thread (
          merged_refs_complete failure export message (parent_of export channel_map parent_names)
            ((parent_of-some_iff export failure.stoat_channel_id).1 parent))))
