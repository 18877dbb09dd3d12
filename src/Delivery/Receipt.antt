-- ===== src/Delivery/Receipt.antt =====
-- state.py: the delivery records and `_decode_delivery_receipt`, on records whose types hold already.
-- The checks that a JSON document has the right members and types are those of the types here.
use Prim.Native.Char.{code}
use discord_stoat_ferry.Prelude.{
  ℕ, suc, ◌+◌, String, str_eq, Bool, true, false, not, ◌&&◌, ◌||◌, Option, none, some, List, [],
  ◌∷◌, if◌then◌else◌, leb, ◌==◌, all,
}
use discord_stoat_ferry.Prelude.Result.{Result, ok, ◌>>=◌, ◌>>◌, raise_if}

pub data DeliveryFamily : Type 0 where
  ordinary merged header separator forum_index : DeliveryFamily

pub data PartStatus : Type 0 where
  prepared uncertain acknowledged confirmed_rejected : PartStatus

pub data AssociationStatus : Type 0 where
  matched mismatch unavailable observed_only : AssociationStatus

pub record DeliveryRef : Type 0 where
  pub source_channel_id : String
  pub source_message_id : String
  pub destination_channel_id : String
  pub family : DeliveryFamily
  pub generation : String

pub record DeliveryPart : Type 0 where
  pub index : ℕ
  pub key : String
  pub attempt : ℕ
  pub status : PartStatus
  pub message_id : String
  pub autumn_ids : List String
  pub association_status : Option AssociationStatus

pub record DeliveryReceipt : Type 0 where
  pub namespace : String
  pub service_digest : String
  pub ref : DeliveryRef
  pub render_digest : String
  pub parts : List DeliveryPart

-- The exceptions of the delivery code. `MessageSendFailure` is told apart by its disposition, and
-- `other` is any further exception of the transport or of cancellation.
pub data DeliveryError : Type 0 where
  value_error state_error unresolved send_rejected send_uncertain permission_stop other :
      DeliveryError

-- The code points of a text.
unfoldable pub codes : String → List ℕ
codes String.[] = []
codes (String.◌∷◌ c s) = code c ∷ codes s

unfoldable pub length_of : String → ℕ
length_of String.[] = 0
length_of (String.◌∷◌ c s) = suc (length_of s)

unfoldable pub is_digit : ℕ → Bool
is_digit c = leb 48 c && leb c 57

-- `[0-9a-f]`
unfoldable pub is_hex : ℕ → Bool
unfolding is_digit
is_hex c = is_digit c || (leb 97 c && leb c 102)

-- `[A-Za-z0-9_-]`
unfoldable pub is_word : ℕ → Bool
unfolding is_digit
is_word c =
    (((is_digit c || (leb 65 c && leb c 90)) || (leb 97 c && leb c 122)) || c == 95) || c == 45

-- `[0-9A-HJKMNP-TV-Za-hjkmnp-tv-z]`: the letters but I, L, O and U, in either case
unfoldable pub is_ulid : ℕ → Bool
unfolding is_digit
is_ulid c =
    let letter = λ (base : ℕ).
      ((leb base c && leb c (base + 25)) && not (c == base + 8))
      && (not (c == base + 11) && (not (c == base + 14) && not (c == base + 20))) in
    is_digit c || (letter 65 || letter 97)

-- `re.fullmatch(r"[class]{n}", value)`
unfoldable pub fullmatch : (ℕ → Bool) → ℕ → ℕ → String → Bool
unfolding codes length_of
fullmatch in_class least most s =
    (leb least (length_of s) && leb (length_of s) most) && all in_class (codes s)

unfoldable pub is_stoat_id : String → Bool
unfolding fullmatch is_ulid
is_stoat_id value = fullmatch is_ulid 26 26 value

unfoldable pub is_stoat_file_id : String → Bool
unfolding fullmatch is_word
is_stoat_file_id value = fullmatch is_word 1 128 value

-- What follows a literal prefix.
unfoldable pub strip_prefix : List ℕ → List ℕ → Option (List ℕ)
strip_prefix [] rest = some rest
strip_prefix (c ∷ cs) [] = none
strip_prefix (c ∷ cs) (d ∷ rest) = if c == d then strip_prefix cs rest else none

abbrev count_of : List ℕ → ℕ
count_of [] = 0
count_of (c ∷ cs) = suc (count_of cs)

-- `r"ferry-v2-[0-9a-f]{40}"`
unfoldable pub is_delivery_key : String → Bool
unfolding codes strip_prefix is_hex
is_delivery_key s = elim (strip_prefix (codes "ferry-v2-") (codes s)) [
  | none ↦ false
  | some rest ↦ count_of rest == 40 && all is_hex rest
]

abbrev pub is_hex_of : ℕ → String → Bool
is_hex_of n s = fullmatch is_hex n n s

-- `_decode_delivery_ref`
unfoldable pub decode_delivery_ref : DeliveryRef → Result DeliveryError DeliveryRef
decode_delivery_ref ref = do
  raise_if (not (fullmatch is_word 1 128 ref.source_channel_id)) state_error
  raise_if (not (fullmatch is_word 1 128 ref.source_message_id)) state_error
  raise_if (not (is_stoat_id ref.destination_channel_id)) state_error
  raise_if (not (str_eq ref.generation "base" || is_hex_of 32 ref.generation)) state_error
  ok ref

-- `key in keys`
unfoldable pub is_among : List String → String → Bool
is_among [] key = false
is_among (k ∷ keys) key = str_eq k key || is_among keys key

-- An acknowledged part has a message, and no other part has one.
abbrev pub has_right_message : PartStatus → String → Bool
has_right_message acknowledged message_id = is_stoat_id message_id
has_right_message prepared message_id = str_eq message_id ""
has_right_message uncertain message_id = str_eq message_id ""
has_right_message confirmed_rejected message_id = str_eq message_id ""

-- The loop over `enumerate(raw["parts"])`; `keys` are those of the parts before.
unfoldable pub decode_parts :
    ℕ → List String → List DeliveryPart → Result DeliveryError (List DeliveryPart)
decode_parts index keys [] = ok []
decode_parts index keys (part ∷ parts) = do
  raise_if (not (part.index == index)) state_error
  raise_if (not (is_delivery_key part.key)) state_error
  raise_if (is_among keys part.key) state_error
  raise_if (not (has_right_message part.status part.message_id)) state_error
  raise_if (not (all is_stoat_file_id part.autumn_ids)) state_error
  rest ← decode_parts (index + 1) (part.key ∷ keys) parts
  ok (part ∷ rest)

abbrev pub is_empty {ℓ} : {A : Type ℓ} → List A → Bool
is_empty [] = true
is_empty (x ∷ xs) = false

unfoldable pub decode_delivery_receipt : DeliveryReceipt → Result DeliveryError DeliveryReceipt
decode_delivery_receipt receipt = do
  raise_if (not (is_hex_of 32 receipt.namespace)) state_error
  raise_if (not (is_hex_of 64 receipt.service_digest)) state_error
  raise_if (not (is_hex_of 64 receipt.render_digest)) state_error
  ref ← decode_delivery_ref receipt.ref
  raise_if (is_empty receipt.parts) state_error
  parts ← decode_parts 0 [] receipt.parts
  ok (record {
    namespace = receipt.namespace;
    service_digest = receipt.service_digest;
    ref = ref;
    render_digest = receipt.render_digest;
    parts = parts;
  })

pub record DeliveryToken : Type 0 where
  pub receipt_id : String
  pub receipt_digest : String
