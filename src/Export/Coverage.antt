-- ===== src/Export/Coverage.antt =====
-- exporter/inventory.py and core/engine.py: what a bounded export still covers.
use discord_stoat_ferry.Prelude.{
  false, ℕ, ◌≤◌, ◌<◌, ◌≡◌, ap, subst, ◌∙◌, String, Bool, true, false, none, some, List, [], ◌∷◌,
  ◌++◌, ◌-◌, arith, if◌then◌else◌, ltb, all, All, Option-cases, inl, inr,
}
use discord_stoat_ferry.Prelude.Dict
use discord_stoat_ferry.Prelude.Dict.{Dict}
use discord_stoat_ferry.Messages.Merging.{FailedMessage}
use discord_stoat_ferry.Export.{
  among, has_repeats, sources_known, int_of, is_snowflake, is_marker, SourceInventory, bounded,
  ExportDecision, Retries, all_retries, has_none, marker_values, retry_values, minimum, least_of,
  decide_with, select_export_decision, failed_ids_of,
}
use discord_stoat_ferry.Export.Failures.{
  IsNumber, is_snowflake-IsNumber, All-append_split, AllAfter, IsFromSource, group_failures-All,
  group_failures-IsFromSource,
}

minimum_bound :
    (bound least : ℕ) (numbers : List ℕ)
    → minimum least numbers ≡ bound
    → (bound ≤ least) × All (λ n. bound ≤ n) numbers
minimum_bound bound least [] h = (omega arith, tt)
minimum_bound bound least (n ∷ numbers) h =
    let rest = minimum_bound bound (if ltb n least then n else least) numbers h in
    (ground (arith, rest.0), (ground (arith, rest.0), rest.1))

-- The bound is at most every candidate.
least_of-le :
    (candidates : List ℕ) (bound : ℕ)
    → least_of candidates ≡ some bound
    → All (λ n. bound ≤ n) candidates
least_of-le [] bound h = tt
least_of-le (n ∷ numbers) bound h = minimum_bound bound n numbers (ground arith)

-- A source whose marker the bound does not pass.
abbrev pub IsMarked : Dict String → ℕ → String → Type 0
IsMarked high_water bound id =
    (marker : String) × (Dict.get high_water id ≡ some marker)
    × IsNumber marker
    × (bound ≤ int_of marker)

marker_values-some :
    (high_water : Dict String) (id marker : String) (ids : List String)
    → Dict.get high_water id ≡ some marker
    → marker_values high_water (id ∷ ids) ≡ int_of marker ∷ marker_values high_water ids
unfolding marker_values
marker_values-some high_water id marker ids there = ground arith

markers-covered :
    (high_water : Dict String) (bound : ℕ) (ids : List String)
    → all (λ id. is_marker (Dict.get high_water id)) ids ≡ true
    → All (λ n. bound ≤ n) (marker_values high_water ids)
    → All (IsMarked high_water bound) ids
markers-covered high_water bound [] ok h = tt
markers-covered high_water bound (id ∷ ids) ok h = elim (Option-cases (Dict.get high_water id)) [
  | inl missing ↦ absurd (ground arith)
  | inr (marker, there) ↦
      let values : All (λ n. bound ≤ n) (int_of marker ∷ marker_values high_water ids) =
        subst (All (λ n. bound ≤ n)) (marker_values-some high_water id marker ids there) h in
      (
        (marker, there, is_snowflake-IsNumber marker (ground arith), values.0),
        markers-covered high_water bound ids (ground arith) values.1,
      )
]

passes_bound :
    (bound : ℕ) (id : String) → is_snowflake id ≡ true → bound ≤ int_of id - 1 → bound < int_of id
unfolding is_snowflake
passes_bound bound id valid below = ground arith

retries-covered :
    (bound : ℕ) (ids : List String)
    → all is_snowflake ids ≡ true
    → All (λ n. bound ≤ n) (retry_values ids)
    → All (λ (id : String). IsNumber id × (bound < int_of id)) ids
retries-covered bound [] ok h = tt
retries-covered bound (id ∷ ids) ok h =
    let valid : is_snowflake id ≡ true = ground arith in
    (
      (is_snowflake-IsNumber id valid, passes_bound bound id valid h.0),
      retries-covered bound ids (ground arith) h.1,
    )

-- What a bounded decision has checked.
record Checked (inventory : SourceInventory) (high_water : Dict String) (failed_ids : Retries)
    (previous_complete : Bool) (decision : ExportDecision) : Type 0 where
  had_completed : previous_complete ≡ true
  is_complete : inventory.complete ≡ true
  no_repeats : has_repeats inventory.ids ≡ false
  all_numbers : all is_snowflake inventory.ids ≡ true
  all_known : sources_known inventory.ids failed_ids ≡ true
  all_marked : all (λ id. is_marker (Dict.get high_water id)) inventory.ids ≡ true
  all_valid : all is_snowflake (all_retries failed_ids) ≡ true
  least :
      decision.after_id
      ≡ least_of (marker_values high_water inventory.ids ++ retry_values (all_retries failed_ids))
  open_ended : decision.before_id ≡ none
  same_ids : decision.expected_ids ≡ inventory.ids
  some_source : has_none inventory.ids ≡ false

decide_with-Checked :
    (inventory : SourceInventory) (high_water : Dict String) (failed_ids : Retries)
    (previous_complete : Bool)
    → (decide_with inventory high_water failed_ids previous_complete).scope ≡ bounded
    → Checked inventory high_water failed_ids previous_complete
        (decide_with inventory high_water failed_ids previous_complete)
unfolding decide_with
decide_with-Checked inventory high_water failed_ids previous_complete h = record {
  had_completed = ground arith;
  is_complete = ground arith;
  no_repeats = ground arith;
  all_numbers = ground arith;
  all_known = ground arith;
  all_marked = ground arith;
  all_valid = ground arith;
  least = ground arith;
  open_ended = ground arith;
  same_ids = ground arith;
  some_source = ground arith;
}

least_of-some :
    (high_water : Dict String) (ids : List String) (others : List ℕ)
    → has_none ids ≡ false
    → all (λ id. is_marker (Dict.get high_water id)) ids ≡ true
    → (bound : ℕ) × (least_of (marker_values high_water ids ++ others) ≡ some bound)
least_of-some high_water [] others some_id ok = cc
least_of-some high_water (id ∷ ids) others some_id ok =
    elim (Option-cases (Dict.get high_water id)) [
      | inl missing ↦ absurd (ground arith)
      | inr (marker, there) ↦ (
        minimum (int_of marker) (marker_values high_water ids ++ others),
        ap (λ values. least_of (values ++ others))
            (marker_values-some high_water id marker ids there),
      )
    ]

-- No source is listed twice, and each is a positive number in decimal digits.
abbrev pub AllSources : List String → Type 0
AllSources [] = Unit {0}
AllSources (id ∷ ids) = (among id ids ≡ false) × IsNumber id × AllSources ids

all_sources :
    (ids : List String) → has_repeats ids ≡ false → all is_snowflake ids ≡ true → AllSources ids
unfolding has_repeats
all_sources [] once numbers = tt
all_sources (id ∷ ids) once numbers = (
  ground arith,
  is_snowflake-IsNumber id (ground arith),
  all_sources ids (ground arith) (ground arith),
)

-- What a bounded export has as its evidence, and what it asks for: the messages after its bound.
pub record Covers (inventory : SourceInventory) (high_water : Dict String)
    (failures : List FailedMessage) (previous_complete : Bool) (decision : ExportDecision)
    : Type 0 where
  pub had_completed : previous_complete ≡ true
  pub is_complete : inventory.complete ≡ true
  pub sources : AllSources inventory.ids
  pub known_failures : All (IsFromSource inventory.ids) failures
  pub bound : ℕ
  pub is_bound : decision.after_id ≡ some bound
  pub no_end : decision.before_id ≡ none
  pub all_sources : decision.expected_ids ≡ inventory.ids
  pub markers : All (IsMarked high_water bound) inventory.ids
  pub retries : AllAfter bound failures

decide_with-Covers :
    (inventory : SourceInventory) (high_water : Dict String) (failures : List FailedMessage)
    (failed_ids : Retries) (previous_complete : Bool)
    → failed_ids_of failures ≡ some failed_ids
    → (decide_with inventory high_water failed_ids previous_complete).scope ≡ bounded
    → Covers inventory high_water failures previous_complete
        (decide_with inventory high_water failed_ids previous_complete)
decide_with-Covers inventory high_water failures failed_ids previous_complete grouped h =
    let checked = decide_with-Checked inventory high_water failed_ids previous_complete h in
    let ids = inventory.ids in
    let retries = all_retries failed_ids in
    let (bound, same) =
      least_of-some high_water ids (retry_values retries) checked.some_source checked.all_marked in
    let parts =
      All-append_split (λ (n : ℕ). bound ≤ n) (marker_values high_water ids) (retry_values retries)
        (least_of-le (marker_values high_water ids ++ retry_values retries) bound same) in
    record {
      had_completed = checked.had_completed;
      is_complete = checked.is_complete;
      sources = all_sources ids checked.no_repeats checked.all_numbers;
      known_failures =
          (group_failures-IsFromSource ids [] failed_ids failures (unfold failed_ids_of in grouped)
            checked.all_known).1;
      bound = bound;
      is_bound = checked.least ∙ same;
      no_end = checked.open_ended;
      all_sources = checked.same_ids;
      markers = markers-covered high_water bound ids checked.all_marked parts.0;
      retries =
          (group_failures-All (λ (id : String). IsNumber id × (bound < int_of id)) [] failed_ids
            failures (unfold failed_ids_of in grouped)
            (retries-covered bound retries checked.all_valid parts.1)).1;
    }

-- A bounded export leaves out nothing that is still needed. Where `select_export_decision`, given the
-- retries that `_failed_ids` finds in the failures, chooses a bounded export, the previous export and
-- the inventory were complete, the sources are distinct positive numbers, and every failure is a
-- recorded delivery from one of them; the export is of all sources, it has a lower bound and no upper
-- one, every source has a numeric high-water mark that is not below the bound, and the message of
-- every failure has a numeric identifier above the bound.
pub select_export_decision-Covers :
    (inventory : SourceInventory) (high_water : Dict String) (failures : List FailedMessage)
    (previous_complete : Bool)
    → (select_export_decision inventory high_water (failed_ids_of failures) previous_complete).scope
      ≡ bounded
    → Covers inventory high_water failures previous_complete
        (select_export_decision inventory high_water (failed_ids_of failures) previous_complete)
unfolding select_export_decision
select_export_decision-Covers inventory high_water failures previous_complete h =
    elim (Option-cases (failed_ids_of failures)) [
      | inl unknown ↦ absurd (ground arith)
      | inr (failed_ids, known) ↦ rw known (
          decide_with-Covers inventory high_water failures failed_ids previous_complete known
            (rw known at h))
    ]
