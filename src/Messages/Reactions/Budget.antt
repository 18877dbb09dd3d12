-- ===== src/Messages/Reactions/Budget.antt =====
-- migrator/messages.py: the summary of the reactions keeps its budget.
use discord_stoat_ferry.Prelude.{
  ℕ, ◌+◌, ◌-◌, ◌≤◌, ◌≡◌, refl, List, [], ◌∷◌, ◌++◌, arith, Bool-cases, ltb, leb, inl, inr,
}
use discord_stoat_ferry.Prelude.Dict.{Dict}
use discord_stoat_ferry.Messages.Split.{Text, utf8_len}
use discord_stoat_ferry.Messages.Split.Markers.{utf8_len-append}
use discord_stoat_ferry.Messages.Reactions.{
  DceReaction, reaction_parts, dot, join_rest, join, prefix, suffix, add_parts, fitting_parts,
  shortened, text_of_parts, of_parts, build_reaction_text,
}

add_parts-fit :
    (budget used : ℕ) (parts : List Text)
    → used ≤ budget
    → used + utf8_len (join_rest (add_parts budget used parts)) ≤ budget
unfolding add_parts
add_parts-fit budget used [] h = unfold utf8_len in omega arith
add_parts-fit budget used (part ∷ parts) h =
    elim (Bool-cases (ltb budget (used + utf8_len (dot ++ part)))) [
      | inl over ↦ rw over (unfold utf8_len in omega arith)
      | inr fits ↦
          let rest = add_parts budget (used + utf8_len (dot ++ part)) parts in
          rw fits (
            omega (
              arith,
              utf8_len-append (dot ++ part) (join_rest rest),
              add_parts-fit budget (used + utf8_len (dot ++ part)) parts (ground arith),
            ))
    ]

fitting_parts-fit :
    (budget : ℕ) (parts : List Text) → utf8_len (join (fitting_parts budget parts)) ≤ budget
unfolding fitting_parts
fitting_parts-fit budget [] = unfold utf8_len in omega arith
fitting_parts-fit budget (part ∷ parts) = elim (Bool-cases (ltb budget (utf8_len part))) [
  | inl over ↦ rw over (unfold utf8_len in omega arith)
  | inr fits ↦ rw fits (
      omega (
        arith,
        utf8_len-append part (join_rest (add_parts budget (utf8_len part) parts)),
        add_parts-fit budget (utf8_len part) parts (ground arith),
      ))
]

no_bytes : utf8_len [] ≡ 0
unfolding utf8_len
no_bytes = refl

shortened-fit :
    (max_bytes : ℕ) (parts : List Text)
    → utf8_len prefix + utf8_len suffix + utf8_len (join parts) ≤ max_bytes
    → utf8_len (shortened parts) ≤ max_bytes
shortened-fit max_bytes [] h = omega (arith, no_bytes)
shortened-fit max_bytes (part ∷ parts) h = omega (
  arith,
  utf8_len-append prefix (join (part ∷ parts) ++ suffix),
  utf8_len-append (join (part ∷ parts)) suffix,
)

text_of_parts-fit :
    (max_bytes : ℕ) (parts : List Text) → utf8_len (text_of_parts max_bytes parts) ≤ max_bytes
unfolding text_of_parts
text_of_parts-fit max_bytes parts =
    let budget = max_bytes - utf8_len prefix - utf8_len suffix in
    elim (Bool-cases (leb (utf8_len (prefix ++ (join parts ++ b']' ∷ []))) max_bytes)) [
      | inl fits ↦ rw fits (ground arith)
      | inr over ↦ elim (Bool-cases (leb budget 0)) [
        | inl nothing ↦ rw (over, nothing) (omega (arith, no_bytes))
        | inr room ↦
            rw (over, room)
              (shortened-fit max_bytes (fitting_parts budget parts)
                (ground (arith, fitting_parts-fit budget parts)))
      ]
    ]

of_parts-fit : (max_bytes : ℕ) (parts : List Text) → utf8_len (of_parts max_bytes parts) ≤ max_bytes
of_parts-fit max_bytes [] = omega (arith, no_bytes)
of_parts-fit max_bytes (part ∷ parts) = text_of_parts-fit max_bytes (part ∷ parts)

-- The summary of the reactions keeps to its budget of bytes, whatever the reactions and the emoji.
pub build_reaction_text-fits :
    (reactions : List DceReaction) (max_bytes : ℕ) (emoji_map : Dict Text)
    → utf8_len (build_reaction_text reactions max_bytes emoji_map) ≤ max_bytes
unfolding build_reaction_text
build_reaction_text-fits reactions max_bytes emoji_map = elim (Bool-cases (leb max_bytes 0)) [
  | inl none_left ↦ rw none_left (omega (arith, no_bytes))
  | inr room ↦ rw room (of_parts-fit max_bytes (reaction_parts emoji_map reactions))
]
