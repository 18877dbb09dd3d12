-- ===== src/Export.antt =====
-- exporter/inventory.py and core/engine.py: whether an export may be bounded, and by which message.
-- `after_id` is a number here, of which the source has the decimal text.
pub mod Coverage
pub mod Failures
mod Tests
use discord_stoat_ferry.Prelude.{
  ℕ, ◌+◌, ◌-◌, ◌*◌, String, str_eq, Bool, true, false, not, ◌&&◌, ◌||◌, Option, none, some, List,
  [], ◌∷◌, ◌++◌, if◌then◌else◌, ltb, leb, all, any,
}
use discord_stoat_ferry.Prelude.Dict
use discord_stoat_ferry.Prelude.Dict.{Dict}
use discord_stoat_ferry.Delivery.Receipt.{DeliveryRef, codes}
use discord_stoat_ferry.Messages.Merging.{FailedMessage}

abbrev pub is_digit : ℕ → Bool
is_digit c = leb b'0' c && leb c b'9'

unfoldable pub int_from : ℕ → List ℕ → ℕ
int_from n [] = n
int_from n (c ∷ text) = int_from (10 * n + (c - b'0')) text

-- `int(text)` of a text of digits
pub int_of : String → ℕ
int_of text = int_from 0 (codes text)

abbrev pub is_empty : List ℕ → Bool
is_empty [] = true
is_empty (c ∷ text) = false

-- `_is_snowflake`, of a text
unfoldable pub is_snowflake : String → Bool
is_snowflake text =
    not (is_empty (codes text)) && (all is_digit (codes text) && ltb 0 (int_of text))

-- `_is_snowflake`, of what `get` returns
abbrev pub is_marker : Option String → Bool
is_marker none = false
is_marker (some text) = is_snowflake text

pub record SourceInventory : Type 0 where
  pub ids : List String
  pub complete : Bool

pub data Scope : Type 0 where
  full bounded : Scope

pub record ExportDecision : Type 0 where
  pub scope : Scope
  pub expected_ids : List String
  pub after_id : Option ℕ
  pub before_id : Option ℕ
  pub reason : String

-- `_full`
abbrev pub full_export : SourceInventory → String → ExportDecision
full_export inventory reason = record {
  scope = full;
  expected_ids = inventory.ids;
  after_id = none;
  before_id = none;
  reason = reason;
}

abbrev pub among : String → List String → Bool
among id ids = any (λ other. str_eq other id) ids

-- `len(ids) != len(set(ids))`
unfoldable pub has_repeats : List String → Bool
has_repeats [] = false
has_repeats (id ∷ ids) = among id ids || has_repeats ids

-- The retries by their source, and all of them.
abbrev pub Retries : Type 0
Retries = List (String × List String)

unfoldable pub all_retries : Retries → List String
all_retries [] = []
all_retries ((source, ids) ∷ retries) = ids ++ all_retries retries

abbrev pub sources_known : List String → Retries → Bool
sources_known ids [] = true
sources_known ids ((source, retries) ∷ others) = among source ids && sources_known ids others

-- The markers, as numbers; a source without one has none.
unfoldable pub marker_values : Dict String → List String → List ℕ
marker_values high_water [] = []
marker_values high_water (id ∷ ids) = elim (Dict.get high_water id) [
  | none ↦ marker_values high_water ids
  | some marker ↦ int_of marker ∷ marker_values high_water ids
]

-- One below each retry.
abbrev pub retry_values : List String → List ℕ
retry_values [] = []
retry_values (id ∷ ids) = (int_of id - 1) ∷ retry_values ids

abbrev pub minimum : ℕ → List ℕ → ℕ
minimum least [] = least
minimum least (n ∷ numbers) = minimum (if ltb n least then n else least) numbers

-- `str(min(candidates))`; there is a candidate where this is called
abbrev pub least_of : List ℕ → Option ℕ
least_of [] = none
least_of (n ∷ numbers) = some (minimum n numbers)

abbrev pub has_none : List String → Bool
has_none [] = true
has_none (id ∷ ids) = false

-- The decision where the retries are known.
unfoldable pub decide_with : SourceInventory → Dict String → Retries → Bool → ExportDecision
decide_with inventory high_water failed_ids previous_complete =
    let protected = all_retries failed_ids in
    if has_none inventory.ids || (not inventory.complete || not previous_complete)
    then full_export inventory "coverage is not proven"
    else if has_repeats inventory.ids || not (all is_snowflake inventory.ids)
    then full_export inventory "inventory is invalid"
    else if not (all (λ id. is_marker (Dict.get high_water id)) inventory.ids)
    then full_export inventory "coverage is not proven"
    else if not (sources_known inventory.ids failed_ids)
    then full_export inventory "retry coverage is not proven"
    else if not (all is_snowflake protected)
    then full_export inventory "retry evidence is invalid"
    else record {
      scope = bounded;
      expected_ids = inventory.ids;
      after_id = least_of (marker_values high_water inventory.ids ++ retry_values protected);
      before_id = none;
      reason = "complete current coverage";
    }

-- `select_export_decision`
unfoldable pub select_export_decision :
    SourceInventory → Dict String → Option Retries → Bool → ExportDecision
select_export_decision inventory high_water none previous_complete =
    full_export inventory "coverage is not proven"
select_export_decision inventory high_water (some failed_ids) previous_complete =
    decide_with inventory high_water failed_ids previous_complete

-- `grouped.setdefault(source, []).append(id)`
unfoldable pub add_retry : Retries → String → String → Retries
add_retry [] source id = (source, id ∷ []) ∷ []
add_retry ((other, ids) ∷ retries) source id =
    if str_eq other source
    then (other, ids ++ id ∷ []) ∷ retries
    else (other, ids) ∷ add_retry retries source id

-- The loop of `_failed_ids`.
unfoldable pub group_failures : Retries → List FailedMessage → Option Retries
group_failures grouped [] = some grouped
group_failures grouped (failure ∷ failures) = elim failure.delivery_ref [
  | none ↦ none
  | some ref ↦
      group_failures (add_retry grouped ref.source_channel_id failure.discord_msg_id) failures
]

-- `_failed_ids`
unfoldable pub failed_ids_of : List FailedMessage → Option Retries
failed_ids_of failures = group_failures [] failures
