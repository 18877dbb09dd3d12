-- ===== src/Delivery/Legacy.antt =====
-- migrator/delivery.py: the search for a delivery made under the keys of older versions.
use Prim.Native.String.{◌++◌ as append}
use discord_stoat_ferry.Prelude.{
  ℕ, zero, suc, ◌+◌, ◌/◌, ◌%◌, String, str_eq, Bool, true, false, not, ◌&&◌, ◌||◌, Option, none,
  some, List, [], ◌∷◌, ◌++◌, map, if◌then◌else◌, ltb, ◌==◌, length, any, get_elem?, get_or,
}
use discord_stoat_ferry.Prelude.Result.{Result, ok, err, ◌>>=◌, ◌>>◌, raise_if}
use discord_stoat_ferry.Prelude.Dict
use discord_stoat_ferry.Prelude.Dict.{Dict}
use discord_stoat_ferry.Prelude.Json.{Value, string, member}
use discord_stoat_ferry.Delivery.Receipt.{
  DeliveryPart, DeliveryReceipt, acknowledged, prepared, uncertain, confirmed_rejected,
  DeliveryError, unresolved, other, is_among, is_empty,
}
use discord_stoat_ferry.Delivery.History.{Page, find_messages}

abbrev digits : List String
digits = "0" ∷ "1" ∷ "2" ∷ "3" ∷ "4" ∷ "5" ∷ "6" ∷ "7" ∷ "8" ∷ "9" ∷ []

-- The decimal text of a number, which is fuel for its own division by ten.
decimal_from : ℕ → ℕ → String
decimal_from zero n = ""
decimal_from (suc fuel) n =
    let rest = decimal_from fuel (n / 10) in
    if ltb n 10 then get_or digits n "" else append rest (get_or digits (n % 10) "")

unfoldable pub decimal : ℕ → String
unfolding decimal_from
decimal n = decimal_from (suc n) n

-- `key if part_count == 1 else f"{key}_p{index + 1}"`
pub legacy_key : ℕ → ℕ → String → String
legacy_key part_count index key =
    if part_count == 1 then key else append (append key "_p") (decimal (index + 1))

-- `row["_id"]` of a row that the search has checked
abbrev text_of : Value → String
text_of (string s) = s
text_of value = ""

abbrev pub id_of : Value → String
id_of row = text_of (member row "_id")

-- Each value once.
pub distinct : List String → List String
distinct [] = []
distinct (s ∷ rest) = let kept = distinct rest in if is_among kept s then kept else s ∷ kept

-- The keys of the groups from `index` on, `left` of them.
pub group_keys : List String → ℕ → ℕ → ℕ → List String
unfolding legacy_key
group_keys legacy_keys part_count index zero = []
group_keys legacy_keys part_count index (suc left) =
    map (legacy_key part_count index) legacy_keys
    ++ group_keys legacy_keys part_count (index + 1) left

any_part : Dict Value → ℕ → ℕ → ℕ → String → Bool
any_part matches part_count index zero key = false
any_part matches part_count index (suc left) key =
    Dict.has matches (legacy_key part_count index key)
    || any_part matches part_count (index + 1) left key

-- The legacy keys under which some part is found.
pub matched_bases : Dict Value → ℕ → List String → List String
unfolding any_part
matched_bases matches part_count [] = []
matched_bases matches part_count (key ∷ keys) =
    let rest = matched_bases matches part_count keys in
    if any_part matches part_count 0 part_count key then key ∷ rest else rest

-- The rows of one group, by identifier.
unfoldable pub candidates : Dict Value → ℕ → ℕ → List String → Dict Value
candidates matches part_count index [] = []
candidates matches part_count index (key ∷ keys) =
    elim (Dict.get matches (legacy_key part_count index key)) [
      | none ↦ candidates matches part_count index keys
      | some row ↦ Dict.put (candidates matches part_count index keys) (id_of row) row
    ]

abbrev the_only : Dict Value → Result DeliveryError Value
the_only [] = err unresolved
the_only ((id, row) ∷ []) = ok row
the_only ((id, row) ∷ other_row ∷ rest) = err unresolved

-- The saved part is acknowledged with another message.
abbrev conflicts : DeliveryPart → String → Bool
conflicts part id = elim part.status [
  | acknowledged ↦ not (str_eq part.message_id id)
  | prepared ↦ false
  | uncertain ↦ false
  | confirmed_rejected ↦ false
]

abbrev part_conflicts : Option DeliveryReceipt → ℕ → String → Result DeliveryError Bool
part_conflicts none index id = ok false
part_conflicts (some receipt) index id = elim (get_elem? receipt.parts index) [
  | none ↦ err other
  | some part ↦ ok (conflicts part id)
]

-- The row of each group from `index` on.
pub rows_of_groups :
    Dict Value
    → Option DeliveryReceipt
    → List String
    → ℕ
    → ℕ
    → ℕ
    → Result DeliveryError (List Value)
rows_of_groups matches receipt legacy_keys part_count index zero = ok []
rows_of_groups matches receipt legacy_keys part_count index (suc left) = do
  row ← the_only (candidates matches part_count index legacy_keys)
  clash ← part_conflicts receipt index (id_of row)
  raise_if clash unresolved
  rows ← rows_of_groups matches receipt legacy_keys part_count (index + 1) left
  ok (row ∷ rows)

abbrev pub is_acknowledged : DeliveryPart → Bool
is_acknowledged part = elim part.status [
  | acknowledged ↦ true
  | prepared ↦ false
  | uncertain ↦ false
  | confirmed_rejected ↦ false
]

abbrev has_open_part : Option DeliveryReceipt → Bool
has_open_part none = true
has_open_part (some receipt) = any (λ part. not (is_acknowledged part)) receipt.parts

abbrev pub is_other_render : Option DeliveryReceipt → String → ℕ → Bool
is_other_render none render_digest part_count = false
is_other_render (some receipt) render_digest part_count =
    not (str_eq receipt.render_digest render_digest) || not (length receipt.parts == part_count)

-- The whole block from `legacy_rows = None` on.
unfoldable pub legacy_rows :
    List String
    → Option DeliveryReceipt
    → String
    → ℕ
    → String
    → List Page
    → Result DeliveryError (Option (List Value))
unfolding group_keys distinct matched_bases rows_of_groups
legacy_rows legacy_keys receipt render_digest part_count channel_id pages =
    elim (not (is_empty legacy_keys) && has_open_part receipt) [
      | false ↦ ok none
      | true ↦ do
        raise_if (is_other_render receipt render_digest part_count) unresolved
        matches ← find_messages channel_id (group_keys legacy_keys part_count 0 part_count) pages
        raise_if (not (length (distinct (matched_bases matches part_count legacy_keys)) == 1))
            unresolved
        rows ← rows_of_groups matches receipt legacy_keys part_count 0 part_count
        raise_if (not (length (distinct (map id_of rows)) == part_count)) unresolved
        ok (some rows)
    ]
