-- ===== src/Delivery/History/Finding.antt =====
-- What the result of `_find_messages` says of the message history.
use mathlib.Core.Option.{some-injective}
use discord_stoat_ferry.Prelude.{
  ℕ, zero, suc, ◌≡◌, refl, ap, sym, ◌∙◌, subst, String, true, Option, none, some, List, [], ◌∷◌,
  ◌++◌, get_elem?, length, if◌then◌else◌, arith, ltb, Bool-cases, Option-cases, inl, inr,
}
use discord_stoat_ferry.Prelude.Result.{ok, Result-cases}
use discord_stoat_ferry.Prelude.Dict
use discord_stoat_ferry.Prelude.Dict.{Dict, get-put}
use discord_stoat_ferry.Prelude.Json.{Value}
use discord_stoat_ferry.Delivery.Receipt.{is_among}
use discord_stoat_ferry.Delivery.History.{
  Page, Scan, read_row, scan_row, scan_rows, start_page, boundary_of, find_from, find_messages,
}
use discord_stoat_ferry.Delivery.History.Matches.{history, Entry, Sound, Grows}
use discord_stoat_ferry.Delivery.History.Search.{Scanned, scan_row-Passed}

-- Exactly the messages of the history under a wanted key are found: what is found has a wanted key,
-- and a row with a wanted key is found, under its own identifier.
pub record Finds (channel_id : String) (keys : List String) (found : Dict Value) (rows : List Value)
    : Type 0 where
  pub sound : Sound channel_id keys found
  pub complete :
      (i : ℕ) (row : Value) (id nonce : String)
      → get_elem? rows i ≡ some row
      → read_row channel_id row ≡ ok (id, some nonce)
      → is_among keys nonce ≡ true
      → Entry channel_id keys found nonce id

module _ (channel_id : String) (keys : List String) where
  -- Every row of a list is found, if its key is wanted.
  abbrev Covered : Dict Value → List Value → Type 0
  Covered found rows =
      (i : ℕ) (row : Value) (id nonce : String)
      → get_elem? rows i ≡ some row
      → read_row channel_id row ≡ ok (id, some nonce)
      → is_among keys nonce ≡ true
      → Entry channel_id keys found nonce id

  record Gone (before boundary : Option String) (scan next : Scan) (rows : List Value)
      : Type 0 where
    scanned : Scanned channel_id keys before boundary next
    grows : Grows channel_id keys scan.found next.found
    covered : Covered next.found rows

  Covered-cons :
      (found : Dict Value) (first : Value) (rows : List Value)
      → ((id nonce : String)
          → read_row channel_id first ≡ ok (id, some nonce)
          → is_among keys nonce ≡ true
          → Entry channel_id keys found nonce id)
      → Covered found rows
      → Covered found (first ∷ rows)
  Covered-cons found first rows here there zero row id nonce e v among =
      here id nonce
        (subst (λ x. read_row channel_id x ≡ ok (id, some nonce)) (sym (some-injective _ _ e)) v)
        among
  Covered-cons found first rows here there (suc i) row id nonce e v among =
      there i row id nonce e v among

  scan_rows-Gone :
      (before boundary : Option String) (scan next : Scan) (rows : List Value)
      → Scanned channel_id keys before boundary scan
      → scan_rows channel_id keys before boundary scan rows ≡ ok next
      → Gone before boundary scan next rows
  unfolding scan_rows
  scan_rows-Gone before boundary scan next [] s h =
      let same : scan ≡ next = cc in
      subst (λ x. Gone before boundary scan x []) same
        (record { scanned = s; grows = λ n i e. e; covered = λ i row id n e. cc })
  scan_rows-Gone before boundary scan next (row ∷ rows) s h =
      elim (Result-cases (scan_row channel_id keys before boundary scan row)) [
        | inl (x, bad) ↦ absurd (ground arith)
        | inr (middle, one) ↦
            let p = scan_row-Passed channel_id keys before boundary scan middle row s one in
            let rest = scan_rows-Gone before boundary middle next rows p.scanned (ground arith) in
            record {
              scanned = rest.scanned;
              grows = λ n i e. rest.grows n i (p.grows n i e);
              covered =
                  Covered-cons next.found row rows
                    (λ id n v among. rest.grows n id (p.covered id n v among)) rest.covered;
            }
      ]

  Scanned-start :
      (before boundary : Option String) (found : Dict Value)
      → Sound channel_id keys found
      → ((id nonce : String)
          → before ≡ some id
          → boundary ≡ some nonce
          → is_among keys nonce ≡ true
          → Entry channel_id keys found nonce id)
      → Scanned channel_id keys before boundary (start_page before found)
  unfolding Dict.get
  Scanned-start before boundary found s e = record { sound = s; seen = λ id n at. cc; ended = e }

  Covered-append :
      (found : Dict Value) (xs ys : List Value)
      → Covered found xs
      → Covered found ys
      → Covered found (xs ++ ys)
  Covered-append found [] ys c d = d
  Covered-append found (x ∷ xs) ys c d =
      Covered-cons found x (xs ++ ys) (λ id n v among. c 0 x id n refl v among)
        (Covered-append found xs ys (λ i. c (suc i)) d)

  -- From a page on: what was found before stays found.
  record Rest (found later : Dict Value) (rows : List Value) : Type 0 where
    sound : Sound channel_id keys later
    grows : Grows channel_id keys found later
    covered : Covered later rows

  boundary_lem :
      (scan : Scan) (id nonce : String)
      → boundary_of scan id ≡ some nonce
      → Dict.get scan.page_seen id ≡ some (some nonce)
  boundary_lem scan id nonce h = elim (Option-cases (Dict.get scan.page_seen id)) [
    | inl missing ↦ absurd (ground arith)
    | inr (seen, at) ↦ ground arith
  ]

  find_from-Rest :
      (before boundary : Option String) (found later : Dict Value) (pages : List Page)
      → Sound channel_id keys found
      → ((id nonce : String)
          → before ≡ some id
          → boundary ≡ some nonce
          → is_among keys nonce ≡ true
          → Entry channel_id keys found nonce id)
      → find_from channel_id keys before boundary found pages ≡ ok later
      → Rest found later (history pages)
  unfolding find_from history
  find_from-Rest before boundary found later [] s e h = cc
  find_from-Rest before boundary found later (none ∷ pages) s e h = cc
  find_from-Rest before boundary found later (some [] ∷ pages) s e h =
      let same : found ≡ later = cc in
      subst (λ x. Rest found x []) same
        (record { sound = s; grows = λ n i e. e; covered = λ i row id n e. cc })
  find_from-Rest before boundary found later (some (row ∷ rows) ∷ pages) s e h =
      elim (Result-cases
        (scan_rows channel_id keys before boundary (start_page before found) (row ∷ rows))) [
          | inl (x, bad) ↦ absurd (ground arith)
          | inr (scan, done) ↦
              let page =
                scan_rows-Gone before boundary (start_page before found) scan (row ∷ rows)
                  (Scanned-start before boundary found s e) done in
              elim (Option-cases scan.previous) [
                | inl none_left ↦ absurd (ground arith)
                | inr (previous, at) ↦ elim (Bool-cases (ltb (length (row ∷ rows)) 100)) [
                  | inl short ↦
                      let same : scan.found ≡ later = ground arith in
                      subst
                        (λ x. Rest found x (
                          if ltb (length (row ∷ rows)) 100
                          then row ∷ rows
                          else (row ∷ rows) ++ history pages))
                        same
                        (rw short (record {
                          sound = page.scanned.sound;
                          grows = page.grows;
                          covered = page.covered;
                        }))
                  | inr full ↦
                      let rest =
                        find_from-Rest (some previous) (boundary_of scan previous) scan.found later
                          pages page.scanned.sound
                          (λ id n b m among.
                            page.scanned.seen id n
                              (boundary_lem scan id n
                                (ap (λ x. boundary_of scan x) (sym (some-injective _ _ b)) ∙ m))
                              among)
                          (ground arith) in
                      rw full (record {
                        sound = rest.sound;
                        grows = λ n i x. rest.grows n i (page.grows n i x);
                        covered =
                            Covered-append later (row ∷ rows) (history pages)
                              (λ i r id n at v among.
                                rest.grows n id (page.covered i r id n at v among))
                              rest.covered;
                      })
                ]
              ]
        ]

-- The look-up by keys is exact. Where `_find_messages` returns, each message that it found is a valid
-- row of the channel with a wanted key, and each row of the history that was read, up to the end of
-- the first page that is not full, is found under its own identifier if its key is wanted.
pub find_messages-Finds :
    (channel_id : String) (keys : List String) (pages : List Page) (found : Dict Value)
    → find_messages channel_id keys pages ≡ ok found
    → Finds channel_id keys found (history pages)
unfolding find_messages Dict.get
find_messages-Finds channel_id keys pages found h =
    let rest =
      find_from-Rest channel_id keys none none [] found pages (λ n row e. cc) (λ id n b. cc) h in
    record { sound = rest.sound; complete = rest.covered }
