-- ===== src/Messages/Tests.antt =====
-- The theorems on the message migration at concrete inputs.
use discord_stoat_ferry.Prelude.{
  ◌≡◌, ◌≢◌, refl, sym, String, eq_iff, true, false, ◌||◌, none, some, List, [], ◌∷◌, ◌++◌, ◌≤◌,
  replicate, arith, ◌⊎◌, inl, inr, Bool-cases, str_eq,
}
use discord_stoat_ferry.Prelude.Dict
use discord_stoat_ferry.Prelude.Dict.{Dict}
use discord_stoat_ferry.Messages.Split.{
  Text, space, utf8_len, first_marker, next_marker, digits, marker_reserve, split_message,
}
use discord_stoat_ferry.Messages.Split.Rounds.{Parts, split_message-Parts}
use discord_stoat_ferry.Messages.Outcomes.{
  Source, message, find, was_acknowledged, category_of, same_source, record_outcome,
}
use discord_stoat_ferry.Messages.Outcomes.Counts.{
  Call, completed, IsCounted, recorded, merged, after_calls, no_outcomes, after_calls-IsCounted,
}
use discord_stoat_ferry.Messages.Outcomes.Recorded.{find-record_outcome}
use discord_stoat_ferry.Messages.Merging.Parents.{thread_last, parent_last, merge_map-parent_wins}
use discord_stoat_ferry.Messages.Reactions.{DceReaction, build_reaction_text}
use discord_stoat_ferry.Messages.Reactions.Budget.{build_reaction_text-fits}

-- A word of ten letters and one of twenty.
abbrev two_words : Text
two_words = replicate 10 b'a' ++ (space ∷ replicate 20 b'b')

split_message-Parts_example :
    (parts : List Text) × (split_message 24 two_words ≡ some parts) × Parts 24 two_words parts
unfolding marker_reserve first_marker next_marker digits utf8_len
split_message-Parts_example = split_message-Parts 24 two_words (omega arith)

-- A message that fails, is partly delivered and then merged from another channel.
abbrev outcome_calls : List Call
outcome_calls =
    recorded (message "c" "m") false false
    ∷ recorded (message "c" "m") true false
    ∷ recorded (message "c" "n") true true
    ∷ merged no_outcomes
    ∷ []

after_calls-IsCounted_example :
    IsCounted (after_calls no_outcomes outcome_calls)
    × ((after_calls no_outcomes outcome_calls).verified ≡ completed outcome_calls)
after_calls-IsCounted_example = after_calls-IsCounted outcome_calls

find-record_outcome_example :
    (find (record_outcome no_outcomes (message "c" "m") true false).pending (message "c" "m")
      ≡ some (category_of (true || was_acknowledged (find [] (message "c" "m")))))
    × ((other : Source)
        → same_source (message "c" "m") other ≡ false
        → find (record_outcome no_outcomes (message "c" "m") true false).pending other
          ≡ find [] other)
find-record_outcome_example = find-record_outcome no_outcomes (message "c" "m") true false tt

-- A thread "1" of channel "9": both channels have the message "1".
abbrev of_thread : Dict String
of_thread = ("1", "in thread") ∷ ("2", "reply") ∷ []

abbrev of_parent : Dict String
of_parent = ("1", "in parent") ∷ []

only_first :
    (key : String) → key ≢ "1" → (Dict.get of_thread key ≡ none) ⊎ (Dict.get of_parent key ≡ none)
unfolding Dict.get
only_first key other = elim (Bool-cases (str_eq "1" key)) [
  | inl same ↦ absurd (other (sym ((eq_iff "1" key).0 same)))
  | inr differs ↦ inr (rw differs)
]

merge_map-parent_wins_example :
    ((key : String)
      → Dict.get (thread_last "1" "9" of_thread of_parent []) key
        ≡ Dict.get (parent_last "1" "9" of_thread of_parent []) key)
    × ((id : String)
        → Dict.get of_parent "1" ≡ some id
        → Dict.get (thread_last "1" "9" of_thread of_parent []) "1" ≡ some id)
unfolding Dict.get
merge_map-parent_wins_example =
    merge_map-parent_wins "1" "9" of_thread of_parent [] (refl, (refl, tt)) (refl, tt) refl
      only_first

-- A thumb, counted thrice, in forty bytes.
abbrev a_reaction : DceReaction
a_reaction = record { emoji = record { id = ""; name = b'a' ∷ [] }; count = 3 }

build_reaction_text-fits_example : utf8_len (build_reaction_text (a_reaction ∷ []) 40 []) ≤ 40
build_reaction_text-fits_example = build_reaction_text-fits (a_reaction ∷ []) 40 []
