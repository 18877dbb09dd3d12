-- ===== src/Delivery/History.antt =====
-- migrator/delivery.py: `_find_messages`, `_history_media` and `_submitted_media`.
pub mod Matches
pub mod Search
pub mod Finding
use discord_stoat_ferry.Prelude.{
  ℕ, String, str_eq, Bool, true, false, not, ◌&&◌, ◌||◌, Option, none, some, List, [], ◌∷◌, ◌++◌,
  if◌then◌else◌, ltb, ◌==◌, length,
}
use discord_stoat_ferry.Prelude.Result.{Result, ok, err, ◌>>=◌, ◌>>◌, raise_if}
use discord_stoat_ferry.Prelude.Dict
use discord_stoat_ferry.Prelude.Dict.{Dict}
use discord_stoat_ferry.Prelude.Json
use discord_stoat_ferry.Prelude.Json.{
  Value, null, boolean, string, number, array, object, Items, nil, cons, is_object, member, is_text,
}
use discord_stoat_ferry.Delivery.Receipt.{
  DeliveryError, unresolved, codes, is_stoat_id, is_stoat_file_id, is_among,
}

-- `message_id >= previous`: texts compare by their code points.
unfoldable pub not_before : List ℕ → List ℕ → Bool
not_before left [] = true
not_before [] (d ∷ right) = false
not_before (c ∷ left) (d ∷ right) = if c == d then not_before left right else ltb d c

-- `row.get("nonce")`: a text, None, or neither
abbrev nonce_of : Value → Option (Option String)
nonce_of null = some none
nonce_of (string nonce) = some (some nonce)
nonce_of (boolean b) = none
nonce_of (number n) = none
nonce_of (array items) = none
nonce_of (object fields) = none

abbrev pub valid_id : Value → Option String
valid_id (string id) = if is_stoat_id id then some id else none
valid_id null = none
valid_id (boolean b) = none
valid_id (number n) = none
valid_id (array items) = none
valid_id (object fields) = none

abbrev pub valid_row :
    Option String → Bool → Option (Option String) → Result DeliveryError (String × Option String)
valid_row (some id) true (some nonce) = ok (id, nonce)
valid_row (some id) true none = err unresolved
valid_row (some id) false _ = err unresolved
valid_row none here _ = err unresolved

-- The identifier and the nonce of a row, if they are valid and the row is of the channel.
unfoldable pub read_row : String → Value → Result DeliveryError (String × Option String)
unfolding is_text
read_row channel_id row =
    valid_row (valid_id (member row "_id"))
      (is_text (member row "channel") (λ c. str_eq c channel_id)) (nonce_of (member row "nonce"))

abbrev pub same_nonce : Option String → Option String → Bool
same_nonce none none = true
same_nonce none (some b) = false
same_nonce (some a) none = false
same_nonce (some a) (some b) = str_eq a b

-- `value is not None and …`
abbrev pub when_some {ℓ} : {A : Type ℓ} → Option A → (A → Bool) → Bool
when_some none p = false
when_some (some a) p = p a

-- The variables of the loop over the rows of a page.
pub record Scan : Type 0 where
  pub previous : Option String
  pub page_seen : Dict (Option String)
  pub advanced : Bool
  pub found : Dict Value

-- `found[nonce] = row`, unless another message has the nonce
abbrev pub add_match :
    List String → Option String → String → Value → Dict Value → Result DeliveryError (Dict Value)
add_match keys none id row found = ok found
add_match keys (some nonce) id row found =
    if is_among keys nonce
    then (if when_some (Dict.get found nonce)
          (λ other. not (is_text (member other "_id") (λ o. str_eq o id)))
        then err unresolved
        else ok (Dict.put found nonce row))
    else ok found

abbrev pub seen_again : Scan → Option String → Option String → Result DeliveryError Scan
seen_again scan seen nonce = if same_nonce seen nonce then ok scan else err unresolved

abbrev pub with_seen : Scan → String → Option String → Scan
with_seen scan id nonce = record {
  previous = scan.previous;
  page_seen = Dict.put scan.page_seen id nonce;
  advanced = scan.advanced;
  found = scan.found;
}

abbrev pub with_match : Scan → String → Option String → Dict Value → Scan
with_match scan id nonce found = record {
  previous = some id;
  page_seen = Dict.put scan.page_seen id nonce;
  advanced = true;
  found = found;
}

-- One row. `before` is the cursor of the page and `boundary` the nonce of its message.
unfoldable pub scan_row :
    String → List String → Option String → Option String → Scan → Value → Result DeliveryError Scan
scan_row channel_id keys before boundary scan row = do
  (id, nonce) ← read_row channel_id row
  elim (Dict.get scan.page_seen id) [
    | some seen ↦ seen_again scan seen nonce
    | none ↦
        if when_some before (λ b. str_eq id b)
        then (if scan.advanced || not (same_nonce nonce boundary)
            then err unresolved
            else ok (with_seen scan id nonce))
        else if when_some scan.previous (λ p. not_before (codes id) (codes p))
        then err unresolved
        else (add_match keys nonce id row scan.found >>= λ found.
            ok (with_match scan id nonce found))
  ]

unfoldable pub scan_rows :
    String
    → List String
    → Option String
    → Option String
    → Scan
    → List Value
    → Result DeliveryError Scan
scan_rows channel_id keys before boundary scan [] = ok scan
scan_rows channel_id keys before boundary scan (row ∷ rows) = do
  next ← scan_row channel_id keys before boundary scan row
  scan_rows channel_id keys before boundary next rows

abbrev pub start_page : Option String → Dict Value → Scan
start_page before found = record {
  previous = before;
  page_seen = [];
  advanced = false;
  found = found;
}

-- The answer to a request for a page: its rows, or that it failed.
abbrev pub Page : Type 0
Page = Option (List Value)

-- `page_seen[previous]`
abbrev pub boundary_of : Scan → String → Option String
boundary_of scan previous = elim (Dict.get scan.page_seen previous) [
  | none ↦ none
  | some nonce ↦ nonce
]

-- `_find_messages`, over the answers to the successive requests; where they end, a request fails.
unfoldable pub find_from :
    String
    → List String
    → Option String
    → Option String
    → Dict Value
    → List Page
    → Result DeliveryError (Dict Value)
find_from channel_id keys before boundary found [] = err unresolved
find_from channel_id keys before boundary found (none ∷ pages) = err unresolved
find_from channel_id keys before boundary found (some [] ∷ pages) = ok found
find_from channel_id keys before boundary found (some (row ∷ rows) ∷ pages) = do
  raise_if (ltb 100 (length (row ∷ rows))) unresolved
  scan ← scan_rows channel_id keys before boundary (start_page before found) (row ∷ rows)
  raise_if (not scan.advanced) unresolved
  elim scan.previous [
    | none ↦ err unresolved
    | some previous ↦ elim (ltb (length (row ∷ rows)) 100) [
      | true ↦ ok scan.found
      | false ↦
          find_from channel_id keys (some previous) (boundary_of scan previous) scan.found pages
    ]
  ]

unfoldable pub find_messages : String → List String → List Page → Result DeliveryError (Dict Value)
find_messages channel_id keys pages = find_from channel_id keys none none [] pages

-- The identifiers of attachments, or of the media of embeds.
abbrev file_id : Value → Result DeliveryError String
file_id (string id) = if is_stoat_file_id id then ok id else err unresolved
file_id null = err unresolved
file_id (boolean b) = err unresolved
file_id (number n) = err unresolved
file_id (array items) = err unresolved
file_id (object fields) = err unresolved

pub attachment_ids : Items → Result DeliveryError (List String)
attachment_ids nil = ok []
attachment_ids (cons item items) = do
  id ← file_id (member item "_id")
  ids ← attachment_ids items
  ok (id ∷ ids)

abbrev is_null : Value → Bool
is_null null = true
is_null value = false

-- The embeds are dicts, all of them.
pub are_objects : Items → Bool
are_objects nil = true
are_objects (cons item items) = is_object item && are_objects items

pub embed_ids : Items → Result DeliveryError (List String)
embed_ids nil = ok []
embed_ids (cons embed embeds) =
    let rest = embed_ids embeds in
    if not (is_text (member embed "type") (λ t. str_eq t "Text")) || is_null (member embed "media")
    then rest
    else do id ← file_id (member (member embed "media") "_id"); ids ← rest; ok (id ∷ ids)

-- `row.get(name, [])` as a list
abbrev items_of : Option Value → Result DeliveryError Items
items_of none = ok nil
items_of (some (array items)) = ok items
items_of (some value) = err unresolved

abbrev lookup : Value → String → Option Value
lookup (object fields) name = Json.get fields name
lookup value name = none

-- `_history_media`
unfoldable pub history_media : Value → Result DeliveryError (List String)
unfolding attachment_ids are_objects embed_ids
history_media row = do
  attachments ← items_of (lookup row "attachments")
  result ← attachment_ids attachments
  embeds ← items_of (lookup row "embeds")
  raise_if (not (are_objects embeds)) unresolved
  more ← embed_ids embeds
  ok (result ++ more)

abbrev submitted_of : Value → List String
submitted_of (string media) = if is_stoat_file_id media then media ∷ [] else []
submitted_of value = []

-- The loop of `_submitted_media`
unfoldable pub submitted_embeds : List Value → List String
submitted_embeds [] = []
submitted_embeds (embed ∷ embeds) = submitted_of (member embed "media") ++ submitted_embeds embeds

unfoldable pub submitted_media : List String → List Value → List String
submitted_media attachments embeds = attachments ++ submitted_embeds embeds
