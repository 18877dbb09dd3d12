-- ===== src/Repair/Agreeing.antt =====
-- core/engine.py: the deliveries that agree with the one that a failure recorded.
use mathlib.Core.List.Memᴰ
use mathlib.Core.List.Memᴰ.{Memᴰ, head, tail}
use discord_stoat_ferry.Prelude.{
  ◌≡◌, refl, ap, ◌∙◌, String, true, Option, none, some, List, [], ◌∷◌, Bool-cases, inl, inr,
}
use discord_stoat_ferry.Delivery.Receipt.{DeliveryRef}
use discord_stoat_ferry.Delivery.Files.{same_ref}
use discord_stoat_ferry.Delivery.Safety.Writing.{same_ref_lem}
use discord_stoat_ferry.Delivery.Retry.{at_base}
use discord_stoat_ferry.Delivery.Retry.Evidence.{first_of}
use discord_stoat_ferry.Messages.Outcomes.Recorded.{same_ref_refl}
use discord_stoat_ferry.Repair.Choices.{DceExport, Candidate, agreeing}

-- The delivery itself, or the recorded one, which must be a generation of it.
abbrev pub IsFor : Option DeliveryRef → DeliveryRef → DeliveryRef → Type 0
IsFor none base ref = ref ≡ base
IsFor (some recorded) base ref = (ref ≡ recorded) × (first_of recorded ≡ base)

module _ (export : DceExport) (message : String) where
  -- The refs that agree, and what stands for them.
  pub agreeing_sound :
      (noted : Option DeliveryRef) (refs : List DeliveryRef) (candidate : Candidate)
      → Memᴰ candidate (agreeing noted export message refs)
      → (base : DeliveryRef) × Memᴰ base refs
        × (candidate.export ≡ export)
        × (candidate.message_id ≡ message)
        × IsFor noted base candidate.ref
  agreeing_sound none [] candidate m = absurd (Memᴰ.not-nil m)
  agreeing_sound (some recorded) [] candidate m = absurd (Memᴰ.not-nil m)
  agreeing_sound none (ref ∷ refs) candidate m = elim (Memᴰ.cases_cons m) [
    | inl same ↦
        let is : candidate.ref ≡ ref = ap (λ c. c.ref) same in
        (ref, head refl, ap (λ c. c.export) same, ap (λ c. c.message_id) same, is)
    | inr later ↦
        let (base, member, from, about, is) = agreeing_sound none refs candidate later in
        (base, tail member, from, about, is)
  ]
  agreeing_sound (some recorded) (ref ∷ refs) candidate m =
      elim (Bool-cases (same_ref (at_base recorded) ref)) [
        | inl same ↦ elim (Memᴰ.cases_cons (rw same at m)) [
          | inl this ↦
              let is : candidate.ref ≡ recorded = ap (λ c. c.ref) this in
              (
                ref,
                head refl,
                ap (λ c. c.export) this,
                ap (λ c. c.message_id) this,
                (is, same_ref_lem (at_base recorded) ref same),
              )
          | inr later ↦
              let (base, member, from, about, is) =
                agreeing_sound (some recorded) refs candidate later in
              (base, tail member, from, about, is)
        ]
        | inr differs ↦
            let (base, member, from, about, is) =
              agreeing_sound (some recorded) refs candidate (rw differs at m) in
            (base, tail member, from, about, is)
      ]

  pub agreeing_complete :
      (noted : Option DeliveryRef) (refs : List DeliveryRef) (base ref : DeliveryRef)
      → Memᴰ base refs
      → IsFor noted base ref
      → Memᴰ
          (record { export = export; message_id = message; ref = ref })
          (agreeing noted export message refs)
  agreeing_complete noted [] base ref m is = absurd (Memᴰ.not-nil m)
  agreeing_complete none (first ∷ refs) base ref m is = elim (Memᴰ.cases_cons m) [
    | inl same ↦
        let equal : ref ≡ first = is ∙ same in
        head (ap (λ r. record { export = export; message_id = message; ref = r }) equal)
    | inr later ↦ tail (agreeing_complete none refs base ref later is)
  ]
  agreeing_complete (some recorded) (first ∷ refs) base ref m is =
      elim (Bool-cases (same_ref (at_base recorded) first)) [
        | inl same ↦ rw same (elim (Memᴰ.cases_cons m) [
          | inl this ↦
              head (ap (λ r. record { export = export; message_id = message; ref = r }) is.0)
          | inr later ↦ tail (agreeing_complete (some recorded) refs base ref later is)
        ])
        | inr differs ↦ rw differs (elim (Memᴰ.cases_cons m) [
          | inl this ↦
              let equal : at_base recorded ≡ first = is.1 ∙ this in
              let agrees : same_ref (at_base recorded) first ≡ true =
                rw (← equal) (same_ref_refl (at_base recorded)) in
              absurd (cc)
          | inr later ↦ agreeing_complete (some recorded) refs base ref later is
        ])
      ]
