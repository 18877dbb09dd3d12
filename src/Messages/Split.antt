-- ===== src/Messages/Split.antt =====
-- migrator/messages.py: `_split_message` and its helpers. A text is the list of its code points, of
-- which none is a lone surrogate, so that `encode` does not raise.
pub mod Prefix
pub mod Cut
pub mod Chunks
pub mod Counts
pub mod Markers
pub mod Rounds
use mathlib.Core.Option
use discord_stoat_ferry.Prelude.{
  ℕ, zero, suc, ◌+◌, ◌-◌, ◌/◌, ◌%◌, Option, none, some, List, [], ◌∷◌, ◌++◌, length, take, drop,
  if◌then◌else◌, ltb, leb, ◌==◌,
}

abbrev pub Text : Type 0
Text = List ℕ

-- `len(char.encode())`
abbrev pub char_bytes : ℕ → ℕ
char_bytes c = if ltb c 0x80 then 1 else if ltb c 0x800 then 2 else if ltb c 0x10000 then 3 else 4

-- `_utf8_len`
unfoldable pub utf8_len : Text → ℕ
utf8_len [] = 0
utf8_len (c ∷ text) = char_bytes c + utf8_len text

-- The loop of `_utf8_prefix`, with `used` bytes taken.
unfoldable pub prefix_from : ℕ → ℕ → Text → Text
prefix_from max_bytes used [] = []
prefix_from max_bytes used (c ∷ text) =
    let rest = prefix_from max_bytes (used + char_bytes c) text in
    if ltb max_bytes (used + char_bytes c) then [] else c ∷ rest

-- `_utf8_prefix`
unfoldable pub utf8_prefix : ℕ → Text → Text
unfolding prefix_from
utf8_prefix max_bytes content = prefix_from max_bytes 0 content

-- `text.rfind(c)`, where Python has -1 for `none`
unfoldable pub rfind : ℕ → Text → Option ℕ
rfind c [] = none
rfind c (d ∷ text) = elim (rfind c text) [
  | some i ↦ some (suc i)
  | none ↦ if d == c then some 0 else none
]

abbrev pub space : ℕ
space = 0x20

-- The chunk that is cut off, and what remains.
abbrev pub cut : Option ℕ → Text → Text → Text × Text
cut (some (suc i)) fitting remaining = (take (suc i) remaining, drop (suc i + 1) remaining)
cut (some zero) fitting remaining = (fitting, drop (length fitting) remaining)
cut none fitting remaining = (fitting, drop (length fitting) remaining)

unfoldable pub next_chunk : ℕ → Text → Text × Text
next_chunk max_bytes remaining =
    let fitting = utf8_prefix max_bytes remaining in cut (rfind space fitting) fitting remaining

-- `_split_raw_chunks`; none means that the rounds of its loop did not suffice
unfoldable pub split_raw_chunks : ℕ → ℕ → Text → Option (List Text)
split_raw_chunks rounds max_bytes [] = some []
split_raw_chunks zero max_bytes (c ∷ text) = none
split_raw_chunks (suc rounds) max_bytes (c ∷ text) =
    let (chunk, remaining) = next_chunk max_bytes (c ∷ text) in
    let rest = split_raw_chunks rounds max_bytes remaining in
    if leb (utf8_len (c ∷ text)) max_bytes
    then some ((c ∷ text) ∷ [])
    else Option.map (λ chunks. chunk ∷ chunks) rest

-- `str(n)`
unfoldable pub digits : ℕ → ℕ → Text
digits zero n = []
digits (suc rounds) n =
    let front = digits rounds (n / 10) in
    if ltb n 10 then (b'0' + n) ∷ [] else front ++ (b'0' + n % 10) ∷ []

abbrev pub decimal : ℕ → Text
decimal n = digits (n + 1) n

-- "[continued "
abbrev pub continued : Text
continued = b'[' ∷ b'c' ∷ b'o' ∷ b'n' ∷ b't' ∷ b'i' ∷ b'n' ∷ b'u' ∷ b'e' ∷ b'd' ∷ b' ' ∷ []

-- "\n[continued 1/{n}]"
unfoldable pub first_marker : ℕ → Text
unfolding digits
first_marker n = 10 ∷ continued ++ (b'1' ∷ b'/' ∷ decimal n ++ b']' ∷ [])

-- "[continued {k}/{n}] "
unfoldable pub next_marker : ℕ → ℕ → Text
unfolding digits
next_marker k n = continued ++ (decimal k ++ (b'/' ∷ decimal n ++ b']' ∷ b' ' ∷ []))

-- `marker_reserve`
unfoldable pub marker_reserve : ℕ → ℕ
marker_reserve n =
    let first = utf8_len (first_marker n) in
    let next = utf8_len (next_marker n n) in if ltb first next then next else first

-- The loop that looks for the number of parts, from `n` on.
unfoldable pub split_for : ℕ → ℕ → Text → ℕ → Option (List Text)
split_for zero max_len content n = none
split_for (suc rounds) max_len content n =
    elim (split_raw_chunks (length content) (max_len - marker_reserve n) content) [
      | none ↦ none
      | some chunks ↦
          if length chunks == n
          then some chunks
          else split_for rounds max_len content (length chunks)
    ]

-- The markers of the parts from number `k` on.
abbrev pub mark_rest : ℕ → ℕ → List Text → List Text
mark_rest k n [] = []
mark_rest k n (chunk ∷ chunks) = (next_marker k n ++ chunk) ∷ mark_rest (k + 1) n chunks

abbrev pub mark : List Text → List Text
mark [] = []
mark (chunk ∷ []) = chunk ∷ []
mark (chunk ∷ other ∷ chunks) =
    let n = length (chunk ∷ other ∷ chunks) in
    (chunk ++ first_marker n) ∷ mark_rest 2 n (other ∷ chunks)

-- `_split_message`
unfoldable pub split_message : ℕ → Text → Option (List Text)
split_message max_len content =
    if leb (utf8_len content) max_len
    then some (content ∷ [])
    else Option.map mark (split_for (length content) max_len content 2)
