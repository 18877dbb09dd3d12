-- ===== src/Repair/Candidates.antt =====
-- core/engine.py: the deliveries that a failure may stand for.
use mathlib.Core.List.Memᴰ
use mathlib.Core.List.Memᴰ.{Memᴰ, head, tail}
use discord_stoat_ferry.Prelude.{◌≡◌, ◌↔◌, refl, ap, subst, String, List, [], ◌∷◌, inl, inr}
use discord_stoat_ferry.Prelude.Dict.{Dict}
use discord_stoat_ferry.Delivery.Receipt.{DeliveryRef, DeliveryFamily}
use discord_stoat_ferry.Messages.Merging.{FailedMessage}
use discord_stoat_ferry.Repair.Choices.{
  DceExport, Candidate, refs_of, agreeing, retry_message_candidates,
}
use discord_stoat_ferry.Repair.Routes.{delivery_to, Route, refs_of_sound, refs_of_complete}
use discord_stoat_ferry.Repair.Agreeing.{IsFor, agreeing_sound, agreeing_complete}

abbrev pub Stands :
    FailedMessage → Dict String → Dict String → DceExport → String → DeliveryRef → Type 0
Stands failure channel_map parent_names export message ref =
    (family : DeliveryFamily) × Route failure export channel_map parent_names family
    × IsFor failure.delivery_ref (delivery_to failure export message family) ref

-- A message that was found, and a delivery of it that may stand for the failure.
abbrev pub IsCandidate :
    FailedMessage → List (DceExport × String) → Dict String → Dict String → Candidate → Type 0
IsCandidate failure found channel_map parent_names candidate =
    Memᴰ (candidate.export, candidate.message_id) found
    × Stands failure channel_map parent_names candidate.export candidate.message_id candidate.ref

module _ (failure : FailedMessage) (channel_map parent_names : Dict String) where
  -- One message that was found.
  abbrev choices : DceExport → String → List Candidate
  choices export message =
      agreeing failure.delivery_ref export message
        (refs_of failure export message channel_map parent_names)

  choices_sound :
      (export : DceExport) (message : String) (candidate : Candidate)
      → Memᴰ candidate (choices export message)
      → (candidate.export ≡ export)
        × (candidate.message_id ≡ message)
        × Stands failure channel_map parent_names candidate.export candidate.message_id
            candidate.ref
  choices_sound export message candidate m =
      let (base, member, from, about, is) =
        agreeing_sound export message failure.delivery_ref
          (refs_of failure export message channel_map parent_names) candidate m in
      let (family, route, shape) =
        refs_of_sound failure channel_map parent_names export message base member in
      let stands : Stands failure channel_map parent_names export message candidate.ref =
        (family, route, subst (λ b. IsFor failure.delivery_ref b candidate.ref) shape is) in
      (from, about, rw (from, about) stands)

  choices_complete :
      (export : DceExport) (message : String) (ref : DeliveryRef)
      → Stands failure channel_map parent_names export message ref
      → Memᴰ (record { export = export; message_id = message; ref = ref }) (choices export message)
  choices_complete export message ref (family, route, is) =
      agreeing_complete export message failure.delivery_ref
        (refs_of failure export message channel_map parent_names)
        (delivery_to failure export message family) ref
        (refs_of_complete failure channel_map parent_names export message family route) is

-- The search is exact. A candidate is among those that `_retry_message_candidates` returns exactly if its
-- export and message were found, and its delivery is, or if the failure recorded one is the recorded
-- one and a generation of, a delivery of the message from its channel to the failure's channel that
-- may have been made: the ordinary one, if the export's channel became the failure's channel, or
-- the merged one, if the export is a thread whose parent, by category or else by name, did.
pub retry_message_candidates_iff :
    (failure : FailedMessage) (found : List (DceExport × String))
    (channel_map parent_names : Dict String) (candidate : Candidate)
    → Memᴰ candidate (retry_message_candidates failure found channel_map parent_names)
      ↔ IsCandidate failure found channel_map parent_names candidate
unfolding retry_message_candidates
retry_message_candidates_iff failure [] channel_map parent_names candidate =
    (λ m. absurd (Memᴰ.not-nil m), λ is. absurd (Memᴰ.not-nil is.0))
retry_message_candidates_iff failure ((export, message) ∷ found) channel_map parent_names
      candidate =
    let rest = retry_message_candidates_iff failure found channel_map parent_names candidate in
    (
      λ m. elim (Memᴰ.append_cases (choices failure channel_map parent_names export message) m) [
        | inl here ↦
            let (from, about, stands) =
              choices_sound failure channel_map parent_names export message candidate here in
            (head (rw (from, about) refl), stands)
        | inr later ↦ let (member, stands) = rest.0 later in (tail member, stands)
      ],
      λ is. elim (Memᴰ.cases_cons is.0) [
        | inl same ↦
            let from : candidate.export ≡ export = ap (λ pair. pair.0) same in
            let about : candidate.message_id ≡ message = ap (λ pair. pair.1) same in
            let stands : Stands failure channel_map parent_names export message candidate.ref =
              rw (← from, ← about) is.1 in
            let member =
              choices_complete failure channel_map parent_names export message candidate.ref
                stands in
            Memᴰ.append_left _ (Memᴰ.cast (rw (from, about) refl) member)
        | inr later ↦
            Memᴰ.append_right (choices failure channel_map parent_names export message)
              (rest.1 (later, is.1))
      ],
    )
