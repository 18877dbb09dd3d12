-- ===== src/Messages/Reactions.antt =====
-- migrator/messages.py: `_build_reaction_text`, the summary of a message's reactions.
pub mod Budget
use mathlib.Core.List.{map}
use discord_stoat_ferry.Prelude.{
  ℕ, zero, suc, ◌+◌, ◌-◌, String, str_eq, Option, none, some, List, [], ◌∷◌, ◌++◌, if◌then◌else◌,
  ltb, leb,
}
use discord_stoat_ferry.Prelude.Dict
use discord_stoat_ferry.Prelude.Dict.{Dict}
use discord_stoat_ferry.Messages.Split.{Text, utf8_len, digits, decimal}

-- The id is empty for a Unicode emoji.
pub record DceEmoji : Type 0 where
  pub id : String
  pub name : Text

pub record DceReaction : Type 0 where
  pub emoji : DceEmoji
  pub count : ℕ

abbrev unmapped : Text → Text
unmapped name = b'[' ∷ b':' ∷ name ++ b':' ∷ b']' ∷ []

-- A mapped emoji, whose Stoat id may be missing or empty.
abbrev mapped : Text → Option Text → Text
mapped name none = unmapped name
mapped name (some []) = unmapped name
mapped name (some (c ∷ id)) = b':' ∷ c ∷ id ++ b':' ∷ []

-- `_reaction_emoji_display`
unfoldable pub reaction_emoji_display : DceEmoji → Dict Text → Text
reaction_emoji_display emoji emoji_map =
    if str_eq emoji.id "" then emoji.name else mapped emoji.name (Dict.get emoji_map emoji.id)

-- f"{name} {count}" of each reaction with a count
unfoldable pub reaction_parts : Dict Text → List DceReaction → List Text
reaction_parts emoji_map [] = []
reaction_parts emoji_map (reaction ∷ reactions) =
    let rest = reaction_parts emoji_map reactions in
    if ltb 0 reaction.count
    then (reaction_emoji_display reaction.emoji emoji_map ++ b' ' ∷ decimal reaction.count) ∷ rest
    else rest

-- " · "
abbrev pub dot : Text
dot = b' ' ∷ 0xB7 ∷ b' ' ∷ []

abbrev pub join_rest : List Text → Text
join_rest [] = []
join_rest (part ∷ parts) = (dot ++ part) ++ join_rest parts

-- `" · ".join(parts)`
abbrev pub join : List Text → Text
join [] = []
join (part ∷ parts) = part ++ join_rest parts

-- "\n[Reactions: "
abbrev pub prefix : Text
prefix = 10 ∷ b'[' ∷ b'R' ∷ b'e' ∷ b'a' ∷ b'c' ∷ b't' ∷ b'i' ∷ b'o' ∷ b'n' ∷ b's' ∷ b':' ∷ b' ' ∷ []

-- "...]"
abbrev pub suffix : Text
suffix = b'.' ∷ b'.' ∷ b'.' ∷ b']' ∷ []

-- The loop, after its first part: the parts that are added with a separator.
unfoldable pub add_parts : ℕ → ℕ → List Text → List Text
add_parts budget used [] = []
add_parts budget used (part ∷ parts) =
    let rest = add_parts budget (used + utf8_len (dot ++ part)) parts in
    if ltb budget (used + utf8_len (dot ++ part)) then [] else part ∷ rest

-- `truncated`: the parts that fit, from the first on
unfoldable pub fitting_parts : ℕ → List Text → List Text
fitting_parts budget [] = []
fitting_parts budget (part ∷ parts) =
    if ltb budget (utf8_len part) then [] else part ∷ add_parts budget (utf8_len part) parts

abbrev pub shortened : List Text → Text
shortened [] = []
shortened (part ∷ parts) = prefix ++ (join (part ∷ parts) ++ suffix)

-- The text of the parts, of which there is one at least.
unfoldable pub text_of_parts : ℕ → List Text → Text
text_of_parts max_bytes parts =
    let full = prefix ++ (join parts ++ b']' ∷ []) in
    let budget = max_bytes - utf8_len prefix - utf8_len suffix in
    if leb (utf8_len full) max_bytes
    then full
    else if leb budget 0
    then []
    else shortened (fitting_parts budget parts)

abbrev pub of_parts : ℕ → List Text → Text
of_parts max_bytes [] = []
of_parts max_bytes (part ∷ parts) = text_of_parts max_bytes (part ∷ parts)

-- `_build_reaction_text`; no reactions have no parts
unfoldable pub build_reaction_text : List DceReaction → ℕ → Dict Text → Text
build_reaction_text reactions max_bytes emoji_map =
    if leb max_bytes 0 then [] else of_parts max_bytes (reaction_parts emoji_map reactions)
