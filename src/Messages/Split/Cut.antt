-- ===== src/Messages/Split/Cut.antt =====
-- migrator/messages.py: what one round of `_split_raw_chunks` cuts off, and that a wider chunk which
-- starts later ends at least as late.
use discord_stoat_ferry.Prelude.{
  ℕ, zero, suc, ◌+◌, ◌-◌, ◌≤◌, ◌<◌, ◌≡◌, refl, sym, ap, ◌∙◌, ◌⊎◌, inl, inr, Option, none, some,
  arith, length, take, drop, get_elem?, get_elem?-drop, Bool-cases, ltb,
}
use discord_stoat_ferry.Messages.Split.{Text, utf8_prefix, rfind, space, cut, next_chunk}
use discord_stoat_ferry.Messages.Split.Prefix.{
  reach, prefix_from-take, reach_mono, rfind-none, rfind-Last, get_elem?-take, get_elem?-take_below,
  get_elem?-take_lt,
}

abbrev pub SpaceAt : Text → ℕ → Type 0
SpaceAt text j = get_elem? text j ≡ some space

-- A chunk that is the whole prefix, which has no space after its first character.
pub record Whole (text : Text) (limit taken used : ℕ) : Type 0 where
  pub all_taken : taken ≡ limit
  pub all_used : used ≡ limit
  pub no_space : (j : ℕ) → 1 ≤ j → j < limit → ¬ SpaceAt text j

-- A chunk that ends before the last space of the prefix, which is dropped.
pub record Spaced (text : Text) (limit taken used : ℕ) : Type 0 where
  pub space_used : used ≡ suc taken
  pub some_taken : 1 ≤ taken
  pub inside : taken < limit
  pub at_space : SpaceAt text taken
  pub greatest : (j : ℕ) → j < limit → SpaceAt text j → j ≤ taken

pub record Chunk (max_bytes : ℕ) (text chunk rest : Text) : Type 0 where
  pub taken : ℕ
  pub used : ℕ
  pub is_chunk : chunk ≡ take taken text
  pub is_rest : rest ≡ drop used text
  pub ends :
      Whole text (reach max_bytes 0 text) taken used
      ⊎ Spaced text (reach max_bytes 0 text) taken used

-- A chunk uses nothing beyond the prefix.
pub used-le :
    (limit taken used : ℕ) (text : Text)
    → Whole text limit taken used ⊎ Spaced text limit taken used
    → used ≤ limit
used-le limit taken used text (inl whole) = omega (arith, whole.all_used)
used-le limit taken used text (inr gap) = omega (arith, gap.space_used, gap.inside)

module _ (max_bytes : ℕ) (text : Text) where
  whole_prefix :
      ((j : ℕ) → get_elem? (utf8_prefix max_bytes text) j ≡ some space → j ≤ 0)
      → Chunk max_bytes text
          (utf8_prefix max_bytes text)
          (drop (length (utf8_prefix max_bytes text)) text)
  unfolding utf8_prefix
  whole_prefix first = record {
    taken = reach max_bytes 0 text;
    used = reach max_bytes 0 text;
    is_chunk = prefix_from-take max_bytes 0 text;
    is_rest = refl;
    ends = inl (record {
      all_taken = refl;
      all_used = refl;
      no_space = λ j positive inside at. omega (
        arith,
        first j (
            ap (λ t. get_elem? t j) (prefix_from-take max_bytes 0 text)
            ∙ get_elem?-take_below (reach max_bytes 0 text) j space text inside at),
      );
    });
  }

  cut-Chunk :
      (found : Option ℕ)
      → rfind space (utf8_prefix max_bytes text) ≡ found
      → (let (chunk, rest) = cut found (utf8_prefix max_bytes text) text in
          Chunk max_bytes text chunk rest)
  cut-Chunk none h =
      whole_prefix (λ j at. absurd (rfind-none space (utf8_prefix max_bytes text) h j at))
  cut-Chunk (some zero) h =
      whole_prefix (rfind-Last space 0 (utf8_prefix max_bytes text) h).greatest
  cut-Chunk (some (suc i)) h =
      let last = rfind-Last space (suc i) (utf8_prefix max_bytes text) h in
      let here = ap (λ t. get_elem? t (suc i)) (sym prefix) ∙ last.at in
      record {
        taken = suc i;
        used = suc i + 1;
        is_chunk = refl;
        is_rest = refl;
        ends = inr (record {
          space_used = omega arith;
          some_taken = omega arith;
          inside = get_elem?-take_lt (reach max_bytes 0 text) (suc i) space text here;
          at_space = get_elem?-take (reach max_bytes 0 text) (suc i) space text here;
          greatest = λ j inside at. last.greatest j (
              ap (λ t. get_elem? t j) prefix
              ∙ get_elem?-take_below (reach max_bytes 0 text) j space text inside at);
        });
      }
    where
      prefix : utf8_prefix max_bytes text ≡ take (reach max_bytes 0 text) text
      prefix = unfold utf8_prefix in prefix_from-take max_bytes 0 text

  pub next_chunk-Chunk :
      (let (chunk, rest) = next_chunk max_bytes text in Chunk max_bytes text chunk rest)
  unfolding next_chunk
  next_chunk-Chunk = cut-Chunk (rfind space (utf8_prefix max_bytes text)) refl

module _ (width wider k : ℕ) (text : Text) where
  -- A space of the later text stands `k` characters further on.
  shifted : (j : ℕ) → SpaceAt (drop k text) j → SpaceAt text (k + j)
  shifted j at = sym (get_elem?-drop k j text) ∙ at

  unshifted : (j : ℕ) → k ≤ j → SpaceAt text j → SpaceAt (drop k text) (j - k)
  unshifted j le at =
      let same : k + (j - k) ≡ j = omega arith in
      get_elem?-drop k (j - k) text ∙ ap (get_elem? text) same ∙ at

  -- The chunk of the later text, which may be wider, ends at least as late.
  pub used_mono :
      (taken used taken' used' : ℕ)
      → width ≤ wider
      → k < length text
      → k < used
      → Whole text (reach width 0 text) taken used ⊎ Spaced text (reach width 0 text) taken used
      → Whole (drop k text) (reach wider 0 (drop k text)) taken' used'
        ⊎ Spaced (drop k text) (reach wider 0 (drop k text)) taken' used'
      → used ≤ k + used'
  used_mono taken used taken' used' w below before (inl a) (inl b) =
      omega (arith, reach_mono width wider 0 0 k text w (omega arith) below, a.all_used, b.all_used)
  used_mono taken used taken' used' w below before (inl a) (inr b) =
      elim (Bool-cases (ltb (k + taken') (reach width 0 text))) [
        | inl early ↦
            absurd
              (a.no_space (k + taken') (omega arith) (ground arith) (shifted taken' b.at_space))
        | inr late ↦ ground (arith, a.all_used, b.space_used)
      ]
  used_mono taken used taken' used' w below before (inr a) (inl b) = omega (
    arith,
    reach_mono width wider 0 0 k text w (omega arith) below,
    a.space_used,
    a.inside,
    b.all_used,
  )
  used_mono taken used taken' used' w below before (inr a) (inr b) = omega (
    arith,
    reach_mono width wider 0 0 k text w (omega arith) below,
    b.greatest (taken - k) (omega (arith, reach_mono width wider 0 0 k text w (omega arith) below))
        (unshifted taken (omega arith) a.at_space),
  )
