-- ===== src/Messages/Split/Prefix.antt =====
-- migrator/messages.py: how far one chunk of `_split_raw_chunks` reaches.
use discord_stoat_ferry.Prelude.{
  ℕ, zero, suc, ◌+◌, ◌≤◌, ◌<◌, ◌≡◌, ◌≢◌, refl, ap, ◌∙◌, inl, inr, none, some, [], ◌∷◌, arith,
  length, take, drop, get_elem?, Option-cases, Bool-cases, ltb,
}
use discord_stoat_ferry.Messages.Split.{Text, char_bytes, utf8_len, prefix_from, rfind}

pub char_bytes_bounds : (c : ℕ) → (1 ≤ char_bytes c) × (char_bytes c ≤ 4)
char_bytes_bounds c = ground arith

-- The length of the prefix.
abbrev pub reach : ℕ → ℕ → Text → ℕ
reach max_bytes used text = length (prefix_from max_bytes used text)

pub prefix_from-take :
    (max_bytes used : ℕ) (text : Text)
    → prefix_from max_bytes used text ≡ take (reach max_bytes used text) text
unfolding prefix_from
prefix_from-take max_bytes used [] = refl
prefix_from-take max_bytes used (c ∷ text) =
    elim (Bool-cases (ltb max_bytes (used + char_bytes c))) [
      | inl over ↦ rw over
      | inr fits ↦ rw fits (ap (λ t. c ∷ t) (prefix_from-take max_bytes (used + char_bytes c) text))
    ]

pub utf8_len-take-reach :
    (max_bytes used n : ℕ) (text : Text)
    → used ≤ max_bytes
    → n ≤ reach max_bytes used text
    → used + utf8_len (take n text) ≤ max_bytes
unfolding prefix_from utf8_len
utf8_len-take-reach max_bytes used zero text h le = omega arith
utf8_len-take-reach max_bytes used (suc n) [] h le = omega arith
utf8_len-take-reach max_bytes used (suc n) (c ∷ text) h le =
    ground (arith, utf8_len-take-reach max_bytes (used + char_bytes c) n text)

pub reach_pos : (max_bytes c : ℕ) (text : Text) → 4 ≤ max_bytes → 1 ≤ reach max_bytes 0 (c ∷ text)
unfolding prefix_from
reach_pos max_bytes c text h = ground arith

-- A text that does not fit reaches beyond its prefix.
pub reach-lt :
    (max_bytes used : ℕ) (text : Text)
    → max_bytes < used + utf8_len text
    → used ≤ max_bytes
    → reach max_bytes used text < length text
unfolding prefix_from utf8_len
reach-lt max_bytes used [] h le = absurd (omega arith)
reach-lt max_bytes used (c ∷ text) h le =
    ground (arith, reach-lt max_bytes (used + char_bytes c) text)

-- A wider chunk that starts later reaches at least as far.
pub reach_mono :
    (width wider used less k : ℕ) (text : Text)
    → width ≤ wider
    → less ≤ used
    → k < length text
    → reach width used text ≤ k + reach wider less (drop k text)
unfolding prefix_from
reach_mono width wider used less k [] w l h = absurd (omega arith)
reach_mono width wider used less zero (c ∷ []) w l h = ground arith
reach_mono width wider used less zero (c ∷ d ∷ text) w l h =
    ground (arith, reach_mono width wider (used + char_bytes c) (less + char_bytes c) 0 (d ∷ text))
reach_mono width wider used less (suc k) (c ∷ []) w l h = absurd (omega arith)
reach_mono width wider used less (suc k) (c ∷ d ∷ text) w l h =
    ground (arith, reach_mono width wider (used + char_bytes c) less k (d ∷ text))

-- `rfind` finds the last one.
pub record Last (c i : ℕ) (text : Text) : Type 0 where
  pub at : get_elem? text i ≡ some c
  pub greatest : (j : ℕ) → get_elem? text j ≡ some c → j ≤ i

module _ (c : ℕ) where
  above :
      (i j d : ℕ) (text : Text)
      → ((k : ℕ) → get_elem? text k ≡ some c → k ≤ i)
      → get_elem? (d ∷ text) j ≡ some c
      → j ≤ suc i
  above i zero d text h e = omega arith
  above i (suc j) d text h e = omega (arith, h j e)

  first_only :
      (j d : ℕ) (text : Text)
      → ((k : ℕ) → get_elem? text k ≢ some c)
      → get_elem? (d ∷ text) j ≡ some c
      → j ≤ 0
  first_only zero d text h e = omega arith
  first_only (suc j) d text h e = absurd (h j e)

  pub rfind-none : (text : Text) → rfind c text ≡ none → (j : ℕ) → get_elem? text j ≢ some c
  unfolding rfind
  rfind-none [] h j e = cc
  rfind-none (d ∷ text) h zero e = ground arith
  rfind-none (d ∷ text) h (suc j) e = elim (Option-cases (rfind c text)) [
    | inl missing ↦ rfind-none text missing j e
    | inr (i, found) ↦ absurd (ground arith)
  ]

  pub rfind-Last : (i : ℕ) (text : Text) → rfind c text ≡ some i → Last c i text
  unfolding rfind
  rfind-Last i [] h = cc
  rfind-Last zero (d ∷ text) h = elim (Option-cases (rfind c text)) [
    | inl missing ↦ record {
      at = ground arith;
      greatest = λ j e. first_only j d text (rfind-none text missing) e;
    }
    | inr (i, found) ↦ absurd (ground arith)
  ]
  rfind-Last (suc i) (d ∷ text) h = elim (Option-cases (rfind c text)) [
    | inl missing ↦ absurd (ground arith)
    | inr (i', found) ↦
        let same : i' ≡ i = ground arith in
        let last = rfind-Last i text (found ∙ ap some same) in
        record { at = last.at; greatest = λ j e. above i j d text last.greatest e }
  ]

-- What is in a prefix stands at the same place in the text.
pub get_elem?-take :
    (n j c : ℕ) (text : Text) → get_elem? (take n text) j ≡ some c → get_elem? text j ≡ some c
get_elem?-take zero j c text e = cc
get_elem?-take (suc n) j c [] e = e
get_elem?-take (suc n) zero c (d ∷ text) e = e
get_elem?-take (suc n) (suc j) c (d ∷ text) e = get_elem?-take n j c text e

pub get_elem?-take_below :
    (n j c : ℕ) (text : Text)
    → j < n
    → get_elem? text j ≡ some c
    → get_elem? (take n text) j ≡ some c
get_elem?-take_below zero j c text h e = absurd (omega arith)
get_elem?-take_below (suc n) j c [] h e = e
get_elem?-take_below (suc n) zero c (d ∷ text) h e = e
get_elem?-take_below (suc n) (suc j) c (d ∷ text) h e =
    get_elem?-take_below n j c text (omega arith) e

pub get_elem?-take_lt : (n j c : ℕ) (text : Text) → get_elem? (take n text) j ≡ some c → j < n
get_elem?-take_lt zero j c text e = absurd (ground arith)
get_elem?-take_lt (suc n) j c [] e = absurd (ground arith)
get_elem?-take_lt (suc n) zero c (d ∷ text) e = omega arith
get_elem?-take_lt (suc n) (suc j) c (d ∷ text) e = omega (arith, get_elem?-take_lt n j c text e)
