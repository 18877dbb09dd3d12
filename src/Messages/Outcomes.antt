-- ===== src/Messages/Outcomes.antt =====
-- migrator/messages.py: `DeliveryOutcomes`, the counts of a run by source. The counts are natural
-- numbers, which those of the source are if each pending outcome is counted.
pub mod Pending
pub mod Counts
pub mod Recorded
use discord_stoat_ferry.Prelude.{
  ℕ, ◌+◌, ◌-◌, String, str_eq, Bool, true, false, ◌&&◌, ◌||◌, Option, none, some, List, [], ◌∷◌,
  if◌then◌else◌,
}
use discord_stoat_ferry.Delivery.Receipt.{DeliveryRef}
use discord_stoat_ferry.Delivery.Files.{same_ref}

-- `DeliveryRef | tuple[str, str]`
pub data Source : Type 0 where
  delivery : DeliveryRef → Source
  message : String → String → Source

pub data Category : Type 0 where
  partly unsettled : Category

unfoldable pub same_source : Source → Source → Bool
same_source (delivery a) (delivery b) = same_ref a b
same_source (message a b) (message c d) = str_eq a c && str_eq b d
same_source (delivery a) (message c d) = false
same_source (message a b) (delivery c) = false

abbrev pub Pending : Type 0
Pending = List (Source × Category)

pub record DeliveryOutcomes : Type 0 where
  pub verified : ℕ
  pub partial : ℕ
  pub unresolved : ℕ
  pub revision : ℕ
  pub pending : Pending

-- `self._pending.get(key)`
unfoldable pub find : Pending → Source → Option Category
find [] key = none
find ((other, category) ∷ pending) key =
    if same_source other key then some category else find pending key

-- What `self._pending.pop(key, None)` leaves.
unfoldable pub pop : Pending → Source → Pending
pop [] key = []
pop ((other, category) ∷ pending) key =
    if same_source other key then pending else (other, category) ∷ pop pending key

-- `self._pending[key] = category`
unfoldable pub put : Pending → Source → Category → Pending
put [] key category = (key, category) ∷ []
put ((other, old) ∷ pending) key category =
    if same_source other key
    then (other, category) ∷ pending
    else (other, old) ∷ put pending key category

-- `replace(ref, generation="base") if isinstance(ref, DeliveryRef) else ref`
abbrev pub base_of : Source → Source
base_of (delivery ref) = delivery (record {
  source_channel_id = ref.source_channel_id;
  source_message_id = ref.source_message_id;
  destination_channel_id = ref.destination_channel_id;
  family = ref.family;
  generation = "base";
})
base_of (message a b) = message a b

-- The counts after the prior outcome is taken back.
abbrev pub without : Option Category → DeliveryOutcomes → Pending → DeliveryOutcomes
without none o pending = record {
  verified = o.verified;
  partial = o.partial;
  unresolved = o.unresolved;
  revision = o.revision + 1;
  pending = pending;
}
without (some partly) o pending = record {
  verified = o.verified;
  partial = o.partial - 1;
  unresolved = o.unresolved;
  revision = o.revision + 1;
  pending = pending;
}
without (some unsettled) o pending = record {
  verified = o.verified;
  partial = o.partial;
  unresolved = o.unresolved - 1;
  revision = o.revision + 1;
  pending = pending;
}

-- A part that was acknowledged before stays acknowledged.
abbrev pub was_acknowledged : Option Category → Bool
was_acknowledged none = false
was_acknowledged (some partly) = true
was_acknowledged (some unsettled) = false

abbrev pub count_verified : DeliveryOutcomes → DeliveryOutcomes
count_verified o = record {
  verified = o.verified + 1;
  partial = o.partial;
  unresolved = o.unresolved;
  revision = o.revision;
  pending = o.pending;
}

abbrev pub count_pending : Source → Category → DeliveryOutcomes → DeliveryOutcomes
count_pending key partly o = record {
  verified = o.verified;
  partial = o.partial + 1;
  unresolved = o.unresolved;
  revision = o.revision;
  pending = put o.pending key partly;
}
count_pending key unsettled o = record {
  verified = o.verified;
  partial = o.partial;
  unresolved = o.unresolved + 1;
  revision = o.revision;
  pending = put o.pending key unsettled;
}

abbrev pub category_of : Bool → Category
category_of true = partly
category_of false = unsettled

-- The classification, once the prior outcome is taken back.
abbrev pub classify : Source → Bool → Bool → DeliveryOutcomes → DeliveryOutcomes
classify key acknowledged true o = count_verified o
classify key acknowledged false o = count_pending key (category_of acknowledged) o

-- `DeliveryOutcomes.record`
unfoldable pub record_outcome : DeliveryOutcomes → Source → Bool → Bool → DeliveryOutcomes
record_outcome o ref acknowledged complete =
    let key = base_of ref in
    let prior = find o.pending key in
    classify key (acknowledged || was_acknowledged prior) complete
      (without prior o (pop o.pending key))

abbrev pub is_partly : Category → Bool
is_partly partly = true
is_partly unsettled = false

-- The loop of `DeliveryOutcomes.merge`.
unfoldable pub record_pending : DeliveryOutcomes → Pending → DeliveryOutcomes
record_pending o [] = o
record_pending o ((ref, category) ∷ pending) =
    record_pending (record_outcome o ref (is_partly category) false) pending

-- `DeliveryOutcomes.merge`
unfoldable pub merge : DeliveryOutcomes → DeliveryOutcomes → DeliveryOutcomes
merge o other =
    let started : DeliveryOutcomes = record {
      verified = o.verified + other.verified;
      partial = o.partial;
      unresolved = o.unresolved;
      revision = o.revision;
      pending = o.pending;
    } in
    let done = record_pending started other.pending in
    record {
      verified = done.verified;
      partial = done.partial;
      unresolved = done.unresolved;
      revision = done.revision + 1;
      pending = done.pending;
    }
