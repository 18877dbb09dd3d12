-- ===== src/Messages/Outcomes/Counts.antt =====
-- migrator/messages.py: the counts of `DeliveryOutcomes` are those of its pending sources.
use discord_stoat_ferry.Prelude.{
  ℕ, ◌+◌, ◌≡◌, refl, ap, ◌∙◌, Bool, true, false, ◌||◌, Option, none, some, List, [], ◌∷◌, arith,
}
use discord_stoat_ferry.Messages.Outcomes.{
  Source, Category, partly, unsettled, Pending, DeliveryOutcomes, find, pop, base_of, without,
  was_acknowledged, count_pending, category_of, classify, record_outcome, is_partly, record_pending,
  merge,
}
use discord_stoat_ferry.Messages.Outcomes.Pending.{
  one_if, partials, unsettleds, holds, Unique, partly_of, unsettled_of, partials-pop,
  unsettleds-pop, pop-Unique, holds-pop_same, partials-put, unsettleds-put, put-Unique,
}

-- The counts are right.
pub record IsCounted (o : DeliveryOutcomes) : Type 0 where
  pub partial_right : o.partial ≡ partials o.pending
  pub unresolved_right : o.unresolved ≡ unsettleds o.pending
  pub unique : Unique o.pending

-- Every record keeps the counts right.
module _ (key : Source) (o : DeliveryOutcomes) (counted : IsCounted o) where
  taken_back : IsCounted (without (find o.pending key) o (pop o.pending key))
  taken_back = go (find o.pending key) (partials-pop key o.pending) (unsettleds-pop key o.pending)
    where
      go :
          (prior : Option Category)
          → partials (pop o.pending key) + partly_of prior ≡ partials o.pending
          → unsettleds (pop o.pending key) + unsettled_of prior ≡ unsettleds o.pending
          → IsCounted (without prior o (pop o.pending key))
      go none p u = record {
        partial_right = omega (arith, counted.partial_right);
        unresolved_right = omega (arith, counted.unresolved_right);
        unique = pop-Unique key o.pending counted.unique;
      }
      go (some partly) p u = record {
        partial_right = omega (arith, counted.partial_right);
        unresolved_right = omega (arith, counted.unresolved_right);
        unique = pop-Unique key o.pending counted.unique;
      }
      go (some unsettled) p u = record {
        partial_right = omega (arith, counted.partial_right);
        unresolved_right = omega (arith, counted.unresolved_right);
        unique = pop-Unique key o.pending counted.unique;
      }

module _ (key : Source) (o : DeliveryOutcomes) (counted : IsCounted o)
    (fresh : holds o.pending key ≡ false) where
  pending-IsCounted : (category : Category) → IsCounted (count_pending key category o)
  pending-IsCounted partly = record {
    partial_right = omega (arith, counted.partial_right, partials-put key partly o.pending fresh);
    unresolved_right =
        omega (arith, counted.unresolved_right, unsettleds-put key partly o.pending fresh);
    unique = put-Unique key partly o.pending fresh counted.unique;
  }
  pending-IsCounted unsettled = record {
    partial_right =
        omega (arith, counted.partial_right, partials-put key unsettled o.pending fresh);
    unresolved_right =
        omega (arith, counted.unresolved_right, unsettleds-put key unsettled o.pending fresh);
    unique = put-Unique key unsettled o.pending fresh counted.unique;
  }

  classify-IsCounted :
      (acknowledged complete : Bool) → IsCounted (classify key acknowledged complete o)
  classify-IsCounted acknowledged true = record {
    partial_right = counted.partial_right;
    unresolved_right = counted.unresolved_right;
    unique = counted.unique;
  }
  classify-IsCounted acknowledged false = pending-IsCounted (category_of acknowledged)

pub pending-without :
    (prior : Option Category) (o : DeliveryOutcomes) (pending : Pending)
    → (without prior o pending).pending ≡ pending
pending-without none o pending = refl
pending-without (some partly) o pending = refl
pending-without (some unsettled) o pending = refl

pub record_outcome-IsCounted :
    (o : DeliveryOutcomes) (ref : Source) (acknowledged complete : Bool)
    → IsCounted o
    → IsCounted (record_outcome o ref acknowledged complete)
unfolding record_outcome
record_outcome-IsCounted o ref acknowledged complete counted =
    let key = base_of ref in
    let prior = find o.pending key in
    classify-IsCounted key (without prior o (pop o.pending key)) (taken_back key o counted)
      (ap (λ p. holds p key) (pending-without prior o (pop o.pending key))
        ∙ holds-pop_same key o.pending counted.unique)
      (acknowledged || was_acknowledged prior) complete

record_pending-IsCounted :
    (o : DeliveryOutcomes) (pending : Pending) → IsCounted o → IsCounted (record_pending o pending)
unfolding record_pending
record_pending-IsCounted o [] counted = counted
record_pending-IsCounted o ((ref, category) ∷ pending) counted =
    record_pending-IsCounted (record_outcome o ref (is_partly category) false) pending
      (record_outcome-IsCounted o ref (is_partly category) false counted)

merge-IsCounted : (o other : DeliveryOutcomes) → IsCounted o → IsCounted (merge o other)
unfolding merge
merge-IsCounted o other counted =
    let done =
      record_pending-IsCounted
        (record {
          verified = o.verified + other.verified;
          partial = o.partial;
          unresolved = o.unresolved;
          revision = o.revision;
          pending = o.pending;
        })
        other.pending
        (record {
          partial_right = counted.partial_right;
          unresolved_right = counted.unresolved_right;
          unique = counted.unique;
        }) in
    record {
      partial_right = done.partial_right;
      unresolved_right = done.unresolved_right;
      unique = done.unique;
    }

-- The calls that change the outcomes of a run.
pub data Call : Type 0 where
  recorded : Source → Bool → Bool → Call
  merged : DeliveryOutcomes → Call

abbrev pub after_calls : DeliveryOutcomes → List Call → DeliveryOutcomes
after_calls o [] = o
after_calls o (recorded ref acknowledged complete ∷ calls) =
    after_calls (record_outcome o ref acknowledged complete) calls
after_calls o (merged other ∷ calls) = after_calls (merge o other) calls

abbrev pub no_outcomes : DeliveryOutcomes
no_outcomes = record { verified = 0; partial = 0; unresolved = 0; revision = 0; pending = [] }

-- How many sources the calls completed, themselves or in the outcomes that they merge in.
abbrev pub completed : List Call → ℕ
completed [] = 0
completed (recorded ref acknowledged true ∷ calls) = 1 + completed calls
completed (recorded ref acknowledged false ∷ calls) = completed calls
completed (merged other ∷ calls) = other.verified + completed calls

verified-without :
    (prior : Option Category) (o : DeliveryOutcomes) (pending : Pending)
    → (without prior o pending).verified ≡ o.verified
verified-without none o pending = refl
verified-without (some partly) o pending = refl
verified-without (some unsettled) o pending = refl

verified-classify :
    (key : Source) (acknowledged complete : Bool) (o : DeliveryOutcomes)
    → (classify key acknowledged complete o).verified ≡ one_if complete + o.verified
verified-classify key acknowledged true o = omega arith
verified-classify key true false o = omega arith
verified-classify key false false o = omega arith

verified-record_outcome :
    (o : DeliveryOutcomes) (ref : Source) (acknowledged complete : Bool)
    → (record_outcome o ref acknowledged complete).verified ≡ one_if complete + o.verified
unfolding record_outcome
verified-record_outcome o ref acknowledged complete =
    let key = base_of ref in
    let prior = find o.pending key in
    verified-classify key (acknowledged || was_acknowledged prior) complete
      (without prior o (pop o.pending key))
    ∙ ap (λ n. one_if complete + n) (verified-without prior o (pop o.pending key))

verified-record_pending :
    (o : DeliveryOutcomes) (pending : Pending) → (record_pending o pending).verified ≡ o.verified
unfolding record_pending
verified-record_pending o [] = refl
verified-record_pending o ((ref, category) ∷ pending) = omega (
  arith,
  verified-record_pending (record_outcome o ref (is_partly category) false) pending,
  verified-record_outcome o ref (is_partly category) false,
)

verified-merge :
    (o other : DeliveryOutcomes) → (merge o other).verified ≡ o.verified + other.verified
unfolding merge
verified-merge o other =
    verified-record_pending
      (record {
        verified = o.verified + other.verified;
        partial = o.partial;
        unresolved = o.unresolved;
        revision = o.revision;
        pending = o.pending;
      })
      other.pending

-- What is left to count of the calls.
calls-IsCounted :
    (o : DeliveryOutcomes) (calls : List Call)
    → IsCounted o
    → IsCounted (after_calls o calls)
      × ((after_calls o calls).verified ≡ o.verified + completed calls)
calls-IsCounted o [] counted = (counted, omega arith)
calls-IsCounted o (recorded ref acknowledged true ∷ calls) counted =
    let (right, verified) =
      calls-IsCounted (record_outcome o ref acknowledged true) calls
        (record_outcome-IsCounted o ref acknowledged true counted) in
    (right, omega (arith, verified, verified-record_outcome o ref acknowledged true))
calls-IsCounted o (recorded ref acknowledged false ∷ calls) counted =
    let (right, verified) =
      calls-IsCounted (record_outcome o ref acknowledged false) calls
        (record_outcome-IsCounted o ref acknowledged false counted) in
    (right, omega (arith, verified, verified-record_outcome o ref acknowledged false))
calls-IsCounted o (merged other ∷ calls) counted =
    let (right, verified) =
      calls-IsCounted (merge o other) calls (merge-IsCounted o other counted) in
    (right, omega (arith, verified, verified-merge o other))

-- The counts of a run are right. After any calls of `record` and `merge`, whatever is merged in, no
-- source is pending twice, the partial and unresolved counts are the numbers of pending sources of
-- that category, and the verified count is the number of calls that recorded a complete source, with
-- the verified counts that were merged in.
pub after_calls-IsCounted :
    (calls : List Call)
    → IsCounted (after_calls no_outcomes calls)
      × ((after_calls no_outcomes calls).verified ≡ completed calls)
after_calls-IsCounted calls =
    let (right, verified) =
      calls-IsCounted no_outcomes calls
        (record { partial_right = refl; unresolved_right = refl; unique = tt }) in
    (right, omega (arith, verified))
