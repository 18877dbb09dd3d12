-- ===== src/Messages/Split/Chunks.antt =====
-- migrator/messages.py: the chunks of `_split_raw_chunks` as a whole.
use mathlib.Core.Option
use discord_stoat_ferry.Prelude.{
  ℕ, zero, suc, ◌-◌, ◌≤◌, ◌≡◌, refl, ap, ◌∙◌, ◌⊎◌, inl, inr, some, List, [], ◌∷◌, ◌++◌, arith,
  length, take, drop, All, length-drop, take-append-drop, Bool-cases, leb,
}
use discord_stoat_ferry.Messages.Split.{Text, utf8_len, space, next_chunk, split_raw_chunks}
use discord_stoat_ferry.Messages.Split.Prefix.{reach, utf8_len-take-reach, reach_pos}
use discord_stoat_ferry.Messages.Split.Cut.{SpaceAt, Whole, Spaced, Chunk, next_chunk-Chunk}

-- The text is the chunks in order, with a space or nothing between them.
pub data Joins : Text → List Text → Type 0 where
  none_left : Joins [] []
  last : {text : Text} → Joins text (text ∷ [])
  glued :
      {text chunk rest : Text} {chunks : List Text}
      → chunk ++ rest ≡ text
      → Joins rest chunks
      → Joins text (chunk ∷ chunks)
  spaced :
      {text chunk rest : Text} {chunks : List Text}
      → chunk ++ space ∷ rest ≡ text
      → Joins rest chunks
      → Joins text (chunk ∷ chunks)

take-append-space :
    (n : ℕ) (text : Text) → SpaceAt text n → take n text ++ space ∷ drop (suc n) text ≡ text
take-append-space n [] at = cc
take-append-space zero (c ∷ text) at = cc
take-append-space (suc n) (c ∷ text) at = ap (λ t. c ∷ t) (take-append-space n text at)

Chunk-Joins :
    (max_bytes : ℕ) (text chunk rest : Text) (chunks : List Text)
    → Chunk max_bytes text chunk rest
    → Joins rest chunks
    → Joins text (chunk ∷ chunks)
Chunk-Joins max_bytes text chunk rest chunks piece later = ends piece.ends
  where
    ends :
        Whole text (reach max_bytes 0 text) piece.taken piece.used
          ⊎ Spaced text (reach max_bytes 0 text) piece.taken piece.used
        → Joins text (chunk ∷ chunks)
    ends (inl whole) =
        glued
          (rw (piece.is_chunk, piece.is_rest, whole.all_taken, whole.all_used)
            (take-append-drop (reach max_bytes 0 text) text))
          later
    ends (inr gap) =
        spaced
          (rw (piece.is_chunk, piece.is_rest, gap.space_used)
            (take-append-space piece.taken text gap.at_space))
          later

-- A chunk lies inside the prefix, and takes something if anything fits.
record Bounds (limit taken used : ℕ) : Type 0 where
  inside : taken ≤ limit
  some_used : 1 ≤ limit → 1 ≤ used

ends-Bounds :
    (limit taken used : ℕ) (text : Text)
    → Whole text limit taken used ⊎ Spaced text limit taken used
    → Bounds limit taken used
ends-Bounds limit taken used text (inl whole) = record {
  inside = omega (arith, whole.all_taken);
  some_used = λ h. omega (arith, whole.all_used);
}
ends-Bounds limit taken used text (inr gap) = record {
  inside = omega (arith, gap.inside);
  some_used = λ h. omega (arith, gap.space_used);
}

module _ (max_bytes : ℕ) (text chunk rest : Text) (piece : Chunk max_bytes text chunk rest) where
  bounds : Bounds (reach max_bytes 0 text) piece.taken piece.used
  bounds = ends-Bounds (reach max_bytes 0 text) piece.taken piece.used text piece.ends

  chunk-fits : utf8_len chunk ≤ max_bytes
  chunk-fits =
      rw piece.is_chunk (
        omega (arith, utf8_len-take-reach max_bytes 0 piece.taken text (omega arith) bounds.inside))

  length-rest : length rest ≡ length text - piece.used
  length-rest = ap length piece.is_rest ∙ length-drop piece.used text

used_pos :
    (max_bytes c : ℕ) (text chunk rest : Text) (piece : Chunk max_bytes (c ∷ text) chunk rest)
    → 4 ≤ max_bytes
    → 1 ≤ piece.used
used_pos max_bytes c text chunk rest piece h =
    (bounds max_bytes (c ∷ text) chunk rest piece).some_used (reach_pos max_bytes c text h)

-- What `_split_raw_chunks` returns: the text in chunks that fit.
pub record Split (max_bytes : ℕ) (text : Text) (chunks : List Text) : Type 0 where
  pub joins : Joins text chunks
  pub fit : All (λ chunk. utf8_len chunk ≤ max_bytes) chunks
  pub few : length chunks ≤ length text

pub split_raw_chunks-Split :
    (rounds max_bytes : ℕ) (text : Text)
    → 4 ≤ max_bytes
    → length text ≤ rounds
    → (chunks : List Text) × (split_raw_chunks rounds max_bytes text ≡ some chunks)
      × Split max_bytes text chunks
unfolding split_raw_chunks
split_raw_chunks-Split rounds max_bytes [] h le =
    ([], refl, record { joins = none_left; fit = tt; few = omega arith })
split_raw_chunks-Split zero max_bytes (c ∷ text) h le = absurd (omega arith)
split_raw_chunks-Split (suc rounds) max_bytes (c ∷ text) h le =
    elim (Bool-cases (leb (utf8_len (c ∷ text)) max_bytes)) [
      | inl fits ↦ (
        (c ∷ text) ∷ [],
        rw fits,
        record { joins = last; fit = (ground arith, tt); few = omega arith },
      )
      | inr over ↦
          let piece = next_chunk-Chunk max_bytes (c ∷ text) in
          let (chunk, rest) = next_chunk max_bytes (c ∷ text) in
          let shorter : length rest ≤ rounds = omega (
            arith,
            length-rest max_bytes (c ∷ text) chunk rest piece,
            used_pos max_bytes c text chunk rest piece h,
          ) in
          let (chunks, same, split) = split_raw_chunks-Split rounds max_bytes rest h shorter in
          (
            chunk ∷ chunks,
            rw over (ap (Option.map (λ cs. chunk ∷ cs)) same),
            record {
              joins = Chunk-Joins max_bytes (c ∷ text) chunk rest chunks piece split.joins;
              fit = (chunk-fits max_bytes (c ∷ text) chunk rest piece, split.fit);
              few = omega (
                arith,
                length-rest max_bytes (c ∷ text) chunk rest piece,
                used_pos max_bytes c text chunk rest piece h,
                split.few,
              );
            },
          )
    ]
