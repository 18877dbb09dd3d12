-- ===== src/Messages/Split/Counts.antt =====
-- migrator/messages.py: narrower chunks are at least as many.
use discord_stoat_ferry.Prelude.{
  ℕ, zero, suc, ◌+◌, ◌-◌, ◌≤◌, ◌<◌, ◌≡◌, refl, sym, ap, ◌∙◌, inl, inr, some, List, [], ◌∷◌, arith,
  length, drop, length-drop, drop-drop, Bool-cases, leb, ltb, Option-cases,
}
use discord_stoat_ferry.Messages.Split.{Text, utf8_len, next_chunk, split_raw_chunks}
use discord_stoat_ferry.Messages.Split.Prefix.{reach, reach-lt}
use discord_stoat_ferry.Messages.Split.Cut.{used-le, Chunk, next_chunk-Chunk, used_mono}

-- One more chunk, and the chunks of the rest.
record Step (rounds max_bytes : ℕ) (text : Text) (chunks : List Text) : Type 0 where
  before : ℕ
  one_less : rounds ≡ suc before
  over : max_bytes < utf8_len text
  chunk : Text
  rest : Text
  piece : Chunk max_bytes text chunk rest
  later : List Text
  rest_split : split_raw_chunks before max_bytes rest ≡ some later
  all_chunks : chunks ≡ chunk ∷ later

-- The three ways in which the loop goes on.
data View (rounds max_bytes : ℕ) (text : Text) (chunks : List Text) : Type 0 where
  empty : length text ≡ 0 → length chunks ≡ 0 → View rounds max_bytes text chunks
  fits :
      utf8_len text ≤ max_bytes
      → length chunks ≡ 1
      → 1 ≤ length text
      → View rounds max_bytes text chunks
  step : Step rounds max_bytes text chunks → View rounds max_bytes text chunks

view :
    (rounds max_bytes : ℕ) (text : Text) (chunks : List Text)
    → split_raw_chunks rounds max_bytes text ≡ some chunks
    → View rounds max_bytes text chunks
unfolding split_raw_chunks
view rounds max_bytes [] chunks h = empty refl (ground arith)
view zero max_bytes (c ∷ text) chunks h = cc
view (suc rounds) max_bytes (c ∷ text) chunks h =
    elim (Bool-cases (leb (utf8_len (c ∷ text)) max_bytes)) [
      | inl small ↦ fits (ground arith) (ground arith) (omega arith)
      | inr over ↦
          elim (Option-cases
            (split_raw_chunks rounds max_bytes (next_chunk max_bytes (c ∷ text)).1)) [
              | inl missing ↦ absurd (ground arith)
              | inr (later, same) ↦ step (record {
                before = rounds;
                one_less = refl;
                over = ground arith;
                chunk = (next_chunk max_bytes (c ∷ text)).0;
                rest = (next_chunk max_bytes (c ∷ text)).1;
                piece = next_chunk-Chunk max_bytes (c ∷ text);
                later = later;
                rest_split = same;
                all_chunks = ground arith;
              })
            ]
    ]

utf8_len-drop : (k : ℕ) (text : Text) → utf8_len (drop k text) ≤ utf8_len text
unfolding utf8_len
utf8_len-drop zero text = omega arith
utf8_len-drop (suc k) [] = omega arith
utf8_len-drop (suc k) (c ∷ text) = omega (arith, utf8_len-drop k text)

some_chunk :
    (rounds max_bytes : ℕ) (text : Text) (chunks : List Text)
    → View rounds max_bytes text chunks
    → 1 ≤ length text
    → 1 ≤ length chunks
some_chunk rounds max_bytes text chunks (empty e n) h = omega arith
some_chunk rounds max_bytes text chunks (fits f one p) h = omega arith
some_chunk rounds max_bytes text chunks (step s) h = omega (arith, ap length s.all_chunks)

nonempty : (n : ℕ) (text : Text) → n < utf8_len text → 1 ≤ length text
unfolding utf8_len
nonempty n [] h = absurd (omega arith)
nonempty n (c ∷ text) h = omega arith

out_of_rounds :
    (width : ℕ) (text : Text) (chunks : List Text)
    → split_raw_chunks 0 width text ≡ some chunks
    → length text ≡ 0
unfolding split_raw_chunks
out_of_rounds width [] chunks h = refl
out_of_rounds width (c ∷ text) chunks h = cc

-- What is dropped twice is dropped at once.
drop-again :
    (j k : ℕ) (text rest : Text) → rest ≡ drop j text → j ≤ k → drop (k - j) rest ≡ drop k text
drop-again j k text rest e le =
    let sum : j + (k - j) ≡ k = omega arith in
    ap (drop (k - j)) e ∙ drop-drop (k - j) j text ∙ ap (λ n. drop n text) sum

-- One step of the comparison, with the comparison of what is left.
module _ (before rounds' width wider k : ℕ) (text : Text) (chunks fewer : List Text)
    (w : width ≤ wider) (h' : split_raw_chunks rounds' wider (drop k text) ≡ some fewer)
    (left : (rounds'' k' : ℕ) (rest : Text) (later fewer' : List Text)
      → split_raw_chunks before width rest ≡ some later
      → split_raw_chunks rounds'' wider (drop k' rest) ≡ some fewer'
      → length fewer' ≤ length later) where
  steps :
      (s : Step (suc before) width text chunks) (s' : Step rounds' wider (drop k text) fewer)
      → length fewer ≤ length chunks
  steps s s' =
      let same : s.before ≡ before = omega (arith, s.one_less) in
      let rest_split : split_raw_chunks before width s.rest ≡ some s.later =
        ap (λ n. split_raw_chunks n width s.rest) (sym same) ∙ s.rest_split in
      let below : k < length text =
        omega (arith, length-drop k text, nonempty wider (drop k text) s'.over) in
      elim (Bool-cases (ltb k s.piece.used)) [
        | inl early ↦
            let reaches : s.piece.used ≤ k + s'.piece.used =
              used_mono width wider k text s.piece.taken s.piece.used s'.piece.taken s'.piece.used w
                below (ground arith) s.piece.ends s'.piece.ends in
            let again : drop (k + s'.piece.used - s.piece.used) s.rest ≡ s'.rest =
              drop-again s.piece.used (k + s'.piece.used) text s.rest s.piece.is_rest reaches
              ∙ sym (drop-drop s'.piece.used k text)
              ∙ sym s'.piece.is_rest in
            omega (
              arith,
              ap length s.all_chunks,
              ap length s'.all_chunks,
              left s'.before (k + s'.piece.used - s.piece.used) s.rest s.later s'.later rest_split
                  (ap (split_raw_chunks s'.before wider) again ∙ s'.rest_split),
            )
        | inr late ↦ omega (
          arith,
          ap length s.all_chunks,
          left rounds' (k - s.piece.used) s.rest s.later fewer rest_split (
              ap (split_raw_chunks rounds' wider)
                (drop-again s.piece.used k text s.rest s.piece.is_rest (ground arith))
              ∙ h'),
        )
      ]

  views :
      View (suc before) width text chunks
      → View rounds' wider (drop k text) fewer
      → length fewer ≤ length chunks
  views v (empty e n) = omega arith
  views v (fits f one p) =
      omega (arith, some_chunk (suc before) width text chunks v (omega (arith, length-drop k text)))
  views (empty e n) (step s') =
      absurd (omega (arith, length-drop k text, nonempty wider (drop k text) s'.over))
  views (fits f one p) (step s') = absurd (omega (arith, utf8_len-drop k text, s'.over))
  views (step s) (step s') = steps s s'

nothing_left :
    (rounds' width wider k : ℕ) (text : Text) (chunks fewer : List Text)
    → length text ≡ 0
    → View rounds' wider (drop k text) fewer
    → length fewer ≤ length chunks
nothing_left rounds' width wider k text chunks fewer none_left (empty e n) = omega arith
nothing_left rounds' width wider k text chunks fewer none_left (fits f one p) =
    absurd (omega (arith, length-drop k text))
nothing_left rounds' width wider k text chunks fewer none_left (step s') =
    absurd (omega (arith, length-drop k text, nonempty wider (drop k text) s'.over))

-- A part of the text, in chunks at least as wide, has at most as many.
pub length-split_mono :
    (rounds rounds' width wider k : ℕ) (text : Text) (chunks fewer : List Text)
    → width ≤ wider
    → split_raw_chunks rounds width text ≡ some chunks
    → split_raw_chunks rounds' wider (drop k text) ≡ some fewer
    → length fewer ≤ length chunks
length-split_mono zero rounds' width wider k text chunks fewer w h h' =
    nothing_left rounds' width wider k text chunks fewer (out_of_rounds width text chunks h)
      (view rounds' wider (drop k text) fewer h')
length-split_mono (suc before) rounds' width wider k text chunks fewer w h h' =
    views before rounds' width wider k text chunks fewer w h'
      (λ rounds'' k' rest later fewer' i i'.
        length-split_mono before rounds'' width wider k' rest later fewer' w i i')
      (view (suc before) width text chunks h) (view rounds' wider (drop k text) fewer h')

-- A text that does not fit has two chunks at least.
pub two_chunks :
    (rounds max_bytes : ℕ) (text : Text) (chunks : List Text)
    → max_bytes < utf8_len text
    → split_raw_chunks rounds max_bytes text ≡ some chunks
    → 2 ≤ length chunks
two_chunks rounds max_bytes text chunks over h = go (view rounds max_bytes text chunks h)
  where
    go : View rounds max_bytes text chunks → 2 ≤ length chunks
    go (empty e n) = absurd (omega (arith, nonempty max_bytes text over))
    go (fits f one p) = absurd (omega arith)
    go (step s) =
        let more : 1 ≤ length s.rest = omega (
          arith,
          ap length s.piece.is_rest,
          length-drop s.piece.used text,
          used-le (reach max_bytes 0 text) s.piece.taken s.piece.used text s.piece.ends,
          reach-lt max_bytes 0 text (omega arith) (omega arith),
        ) in
        omega (
          arith,
          ap length s.all_chunks,
          some_chunk s.before max_bytes s.rest s.later
              (view s.before max_bytes s.rest s.later s.rest_split) more,
        )
