-- ===== src/Messages/Split/Rounds.antt =====
-- migrator/messages.py: the number of parts in `_split_message` settles, and the parts fit.
use mathlib.Core.Option
use discord_stoat_ferry.Prelude.{
  ℕ, zero, suc, ◌+◌, ◌-◌, ◌≤◌, ◌<◌, ◌≡◌, refl, true, sym, ap, subst, inl, inr, some, List, [], ◌∷◌,
  arith, length, All, Bool-cases, if◌then◌else◌, ◌∙◌, leb, ◌==◌,
}
use discord_stoat_ferry.Messages.Split.{
  Text, utf8_len, split_raw_chunks, first_marker, next_marker, marker_reserve, split_for, mark,
  mark_rest, split_message,
}
use discord_stoat_ferry.Messages.Split.Chunks.{Joins, last, Split, split_raw_chunks-Split}
use discord_stoat_ferry.Messages.Split.Counts.{length-split_mono, two_chunks}
use discord_stoat_ferry.Messages.Split.Markers.{
  utf8_len-append, first_marker_bytes, next_marker_bytes, decimal_mono, reserve_bounds,
  reserve_mono, utf8_len-le,
}

split_for-step :
    (rounds max_len n : ℕ) (content : Text) (chunks : List Text)
    → split_raw_chunks (length content) (max_len - marker_reserve n) content ≡ some chunks
    → split_for (suc rounds) max_len content n ≡ (
        if length chunks == n
        then some chunks
        else split_for rounds max_len content (length chunks))
unfolding split_for
split_for-step rounds max_len n content chunks same = ground arith

-- The loop ends with a number of parts that is the number of chunks.
record Settled (max_len : ℕ) (content : Text) (chunks : List Text) : Type 0 where
  split : Split (max_len - marker_reserve (length chunks)) content chunks
  room : marker_reserve (length chunks) + 4 ≤ max_len

module _ (max_len : ℕ) (content : Text)
    (enough : marker_reserve (length content) + 4 ≤ max_len) where
  room_at : (n : ℕ) → n ≤ length content → marker_reserve n + 4 ≤ max_len
  room_at n le = omega (arith, reserve_mono n (length content) le)

  split_for-Settled :
      (rounds n : ℕ)
      → n ≤ length content
      → length content < n + rounds
      → ((chunks : List Text)
          → split_raw_chunks (length content) (max_len - marker_reserve n) content ≡ some chunks
          → n ≤ length chunks)
      → (chunks : List Text) × (split_for rounds max_len content n ≡ some chunks)
        × Settled max_len content chunks
  split_for-Settled zero n le few least = absurd (omega arith)
  split_for-Settled (suc rounds) n le few least =
      let (chunks, same, split) =
        split_raw_chunks-Split (length content) (max_len - marker_reserve n) content
          (omega (arith, room_at n le)) (omega arith) in
      let number : length chunks == n ≡ true → length chunks ≡ n = λ h. ground arith in
      elim (Bool-cases (length chunks == n)) [
        | inl settled ↦ (
          chunks,
          split_for-step rounds max_len n content chunks same ∙ rw settled,
          record {
            split =
                subst (λ m. Split (max_len - marker_reserve m) content chunks)
                  (sym (number settled)) split;
            room = rw (number settled) (room_at n le);
          },
        )
        | inr other ↦
            let (final, ends, done) =
              split_for-Settled rounds (length chunks) split.few (ground (arith, least chunks same))
                (λ next found.
                  length-split_mono (length content) (length content)
                    (max_len - marker_reserve (length chunks)) (max_len - marker_reserve n) 0
                    content next chunks
                    (omega (arith, reserve_mono n (length chunks) (least chunks same))) found
                    same) in
            (final, split_for-step rounds max_len n content chunks same ∙ rw (other, ends), done)
      ]

-- The parts of a message: its chunks, in order, with their markers.
pub record Parts (max_len : ℕ) (content : Text) (parts : List Text) : Type 0 where
  pub chunks : List Text
  pub joins : Joins content chunks
  pub marked : parts ≡ mark chunks
  pub fit : All (λ part. utf8_len part ≤ max_len) parts

mark_rest-fit :
    (max_len width k n : ℕ) (chunks : List Text)
    → width + marker_reserve n ≤ max_len
    → k + length chunks ≤ n + 1
    → All (λ chunk. utf8_len chunk ≤ width) chunks
    → All (λ part. utf8_len part ≤ max_len) (mark_rest k n chunks)
mark_rest-fit max_len width k n [] room few fit = tt
mark_rest-fit max_len width k n (chunk ∷ chunks) room few fit = (
  omega (
    arith,
    fit.0,
    utf8_len-append (next_marker k n) chunk,
    next_marker_bytes k n,
    next_marker_bytes n n,
    decimal_mono k n (omega arith),
    (reserve_bounds n).1,
  ),
  mark_rest-fit max_len width (k + 1) n chunks room (omega arith) fit.1,
)

mark-fit :
    (max_len width : ℕ) (chunks : List Text)
    → width + marker_reserve (length chunks) ≤ max_len
    → All (λ chunk. utf8_len chunk ≤ width) chunks
    → All (λ part. utf8_len part ≤ max_len) (mark chunks)
mark-fit max_len width [] room fit = tt
mark-fit max_len width (chunk ∷ []) room fit = (omega (arith, fit.0), tt)
mark-fit max_len width (chunk ∷ other ∷ chunks) room fit =
    let n = length (chunk ∷ other ∷ chunks) in
    (
      omega (arith, fit.0, utf8_len-append chunk (first_marker n), (reserve_bounds n).0),
      mark_rest-fit max_len width 2 n (other ∷ chunks) room (omega arith) fit.1,
    )

-- The splitting of a message ends, loses nothing and keeps the limit. Where the limit leaves four bytes
-- beside the marker for as many parts as the content has characters, `_split_message` returns parts
-- which are the chunks of the content in order with their markers, where between two chunks at most
-- one space of the content is dropped, and no part is longer than the limit in UTF-8.
pub split_message-Parts :
    (max_len : ℕ) (content : Text)
    → marker_reserve (length content) + 4 ≤ max_len
    → (parts : List Text) × (split_message max_len content ≡ some parts)
      × Parts max_len content parts
unfolding split_message
split_message-Parts max_len content room = elim (Bool-cases (leb (utf8_len content) max_len)) [
  | inl fits ↦ (
    content ∷ [],
    rw fits,
    record { chunks = content ∷ []; joins = last; marked = refl; fit = (ground arith, tt) },
  )
  | inr over ↦
      let long : max_len < utf8_len content = ground arith in
      let two : 2 ≤ length content = omega (
        arith,
        utf8_len-le content,
        first_marker_bytes (length content),
        (reserve_bounds (length content)).0,
      ) in
      let (chunks, same, settled) =
        split_for-Settled max_len content room (length content) 2 two (omega arith) (λ found h.
          two_chunks (length content) (max_len - marker_reserve 2) content found (omega arith) h) in
      (
        mark chunks,
        rw over (ap (Option.map mark) same),
        record {
          chunks = chunks;
          joins = settled.split.joins;
          marked = refl;
          fit =
              mark-fit max_len (max_len - marker_reserve (length chunks)) chunks
                (omega (arith, settled.room)) settled.split.fit;
        },
      )
]
