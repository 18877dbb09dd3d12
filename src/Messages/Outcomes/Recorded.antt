-- ===== src/Messages/Outcomes/Recorded.antt =====
-- migrator/messages.py: what a call of `DeliveryOutcomes.record` changes.
use discord_stoat_ferry.Prelude.{
  ◌≡◌, refl, ap, ◌∙◌, Bool, true, false, ◌||◌, none, some, [], ◌∷◌, arith, if◌then◌else◌,
  Bool-cases, inl, inr, eq_iff,
}
use discord_stoat_ferry.Delivery.Receipt.{
  DeliveryRef, DeliveryFamily, ordinary, merged, header, separator, forum_index,
}
use discord_stoat_ferry.Delivery.Files.{same_ref, same_family}
use discord_stoat_ferry.Messages.Outcomes.{
  delivery, message, Source, Category, same_source, Pending, DeliveryOutcomes, find, pop, put,
  base_of, without, was_acknowledged, category_of, classify, record_outcome,
}
use discord_stoat_ferry.Messages.Outcomes.Pending.{same_source_lem, holds-pop_same, holds, Unique}
use discord_stoat_ferry.Messages.Outcomes.Counts.{pending-without}

find-holds :
    (pending : Pending) (key : Source) → holds pending key ≡ false → find pending key ≡ none
unfolding find
find-holds [] key h = refl
find-holds ((other, category) ∷ pending) key h = ground (arith, find-holds pending key)

module _ (key other : Source) where
  find-pop :
      (pending : Pending)
      → same_source key other ≡ false
      → find (pop pending key) other ≡ find pending other
  unfolding find pop
  find-pop [] differs = refl
  find-pop ((first, category) ∷ pending) differs = elim (Bool-cases (same_source first key)) [
    | inl same ↦
        let away : same_source first other ≡ false =
          ap (λ s. same_source s other) (same_source_lem first key same) ∙ differs in
        rw (same, away) refl
    | inr more ↦ rw more (ground (arith, find-pop pending differs))
  ]

  find-put :
      (category : Category) (pending : Pending)
      → same_source key other ≡ false
      → find (put pending key category) other ≡ find pending other
  unfolding find put
  find-put category [] differs = rw differs
  find-put category ((first, old) ∷ pending) differs = elim (Bool-cases (same_source first key)) [
    | inl same ↦
        let away : same_source first other ≡ false =
          ap (λ s. same_source s other) (same_source_lem first key same) ∙ differs in
        rw (same, away)
    | inr more ↦ rw more (ground (arith, find-put category pending differs))
  ]

same_family_refl : (f : DeliveryFamily) → same_family f f ≡ true
same_family_refl ordinary = refl
same_family_refl merged = refl
same_family_refl header = refl
same_family_refl separator = refl
same_family_refl forum_index = refl

pub same_ref_refl : (ref : DeliveryRef) → same_ref ref ref ≡ true
unfolding same_ref
same_ref_refl ref = ground (
  arith,
  eq_iff ref.source_channel_id ref.source_channel_id,
  eq_iff ref.source_message_id ref.source_message_id,
  eq_iff ref.destination_channel_id ref.destination_channel_id,
  eq_iff ref.generation ref.generation,
  same_family_refl ref.family,
)

same_source_refl : (a : Source) → same_source a a ≡ true
unfolding same_source
same_source_refl (delivery ref) = same_ref_refl ref
same_source_refl (message a b) = ground (arith, eq_iff a a, eq_iff b b)

module _ (key : Source) where
  find-put_same :
      (category : Category) (pending : Pending)
      → holds pending key ≡ false
      → find (put pending key category) key ≡ some category
  unfolding find put
  find-put_same category [] fresh = rw (same_source_refl key)
  find-put_same category ((first, old) ∷ pending) fresh =
      elim (Bool-cases (same_source first key)) [
        | inl same ↦ absurd (ground arith)
        | inr more ↦ rw (more, more) (find-put_same category pending (ground arith))
      ]

  -- The pending sources after the classification.
  classified_pending : Bool → Bool → Pending → Pending
  classified_pending acknowledged true pending = pending
  classified_pending acknowledged false pending = put pending key (category_of acknowledged)

  pending-classify :
      (acknowledged complete : Bool) (o : DeliveryOutcomes)
      → (classify key acknowledged complete o).pending
        ≡ classified_pending acknowledged complete o.pending
  unfolding classified_pending
  pending-classify acknowledged true o = refl
  pending-classify true false o = refl
  pending-classify false false o = refl

  find-classified :
      (acknowledged complete : Bool) (pending : Pending)
      → holds pending key ≡ false
      → find (classified_pending acknowledged complete pending) key
        ≡ (if complete then none else some (category_of acknowledged))
  unfolding classified_pending
  find-classified acknowledged true pending fresh = find-holds pending key fresh
  find-classified acknowledged false pending fresh =
      find-put_same (category_of acknowledged) pending fresh

  find-classified_other :
      (acknowledged complete : Bool) (pending : Pending) (other : Source)
      → same_source key other ≡ false
      → find (classified_pending acknowledged complete pending) other ≡ find pending other
  unfolding classified_pending
  find-classified_other acknowledged true pending other differs = refl
  find-classified_other acknowledged false pending other differs =
      find-put key other (category_of acknowledged) pending differs

pending-record_outcome :
    (o : DeliveryOutcomes) (ref : Source) (acknowledged complete : Bool)
    → (record_outcome o ref acknowledged complete).pending
      ≡ classified_pending
          (base_of ref)
          (acknowledged || was_acknowledged (find o.pending (base_of ref)))
          complete
          (pop o.pending (base_of ref))
unfolding record_outcome
pending-record_outcome o ref acknowledged complete =
    let key = base_of ref in
    let prior = find o.pending key in
    pending-classify key (acknowledged || was_acknowledged prior) complete
      (without prior o (pop o.pending key))
    ∙ ap (classified_pending key (acknowledged || was_acknowledged prior) complete)
        (pending-without prior o (pop o.pending key))

-- What one call of `record` changes. Where no source is pending twice, the source, under its base
-- generation, is afterwards no longer pending if it is complete, and otherwise pending as partial if this
-- call or the prior outcome acknowledged a part of it, and as unresolved if not; every other source is
-- pending as before.
pub find-record_outcome :
    (o : DeliveryOutcomes) (ref : Source) (acknowledged complete : Bool)
    → Unique o.pending
    → (find (record_outcome o ref acknowledged complete).pending (base_of ref) ≡ (
        if complete
        then none
        else some (category_of (acknowledged || was_acknowledged (find o.pending (base_of ref))))))
      × ((other : Source)
          → same_source (base_of ref) other ≡ false
          → find (record_outcome o ref acknowledged complete).pending other ≡ find o.pending other)
find-record_outcome o ref acknowledged complete unique =
    let key = base_of ref in
    let acked = acknowledged || was_acknowledged (find o.pending key) in
    let shape = pending-record_outcome o ref acknowledged complete in
    (
      ap (λ p. find p key) shape
          ∙ find-classified key acked complete (pop o.pending key)
              (holds-pop_same key o.pending unique),
      λ other differs.
          ap (λ p. find p other) shape
          ∙ find-classified_other key acked complete (pop o.pending key) other differs
          ∙ find-pop key other o.pending differs,
    )
