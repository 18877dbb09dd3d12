-- ===== src/Delivery/History/Search.antt =====
-- The search of `_find_messages`, page by page.
use mathlib.Core.Option.{some-injective}
use discord_stoat_ferry.Prelude.{
  ◌≡◌, refl, ap, sym, ◌∙◌, subst, String, str_eq, eq_iff, true, not, ◌||◌, Option, none, some, List,
  arith, Bool-cases, Option-cases, inl, inr,
}
use discord_stoat_ferry.Prelude.Result.{ok, Result-cases}
use discord_stoat_ferry.Prelude.Dict
use discord_stoat_ferry.Prelude.Dict.{Dict, get-put}
use discord_stoat_ferry.Prelude.Json.{Value}
use discord_stoat_ferry.Delivery.Receipt.{is_among, codes}
use discord_stoat_ferry.Delivery.History.{
  Scan, read_row, add_match, same_nonce, when_some, seen_again, with_seen, with_match, scan_row,
  not_before,
}
use discord_stoat_ferry.Delivery.History.Matches.{
  Entry, Sound, Grows, Added, add_match-Added, same_nonce_lem,
}

module _ (channel_id : String) (keys : List String) where
  -- What the scan of a page knows: the rows it has seen, and the one the last page ended with.
  pub record Scanned (before boundary : Option String) (scan : Scan) : Type 0 where
    pub sound : Sound channel_id keys scan.found
    pub seen :
        (id nonce : String)
        → Dict.get scan.page_seen id ≡ some (some nonce)
        → is_among keys nonce ≡ true
        → Entry channel_id keys scan.found nonce id
    pub ended :
        (id nonce : String)
        → before ≡ some id
        → boundary ≡ some nonce
        → is_among keys nonce ≡ true
        → Entry channel_id keys scan.found nonce id

  -- After a row: what was found stays found, and so is the row if its key is wanted.
  pub record Passed (before boundary : Option String) (scan next : Scan) (row : Value)
      : Type 0 where
    pub scanned : Scanned before boundary next
    pub grows : Grows channel_id keys scan.found next.found
    pub covered :
        (id nonce : String)
        → read_row channel_id row ≡ ok (id, some nonce)
        → is_among keys nonce ≡ true
        → Entry channel_id keys next.found nonce id

  same_row :
      (row : Value) {id other : String} {nonce m : Option String}
      → read_row channel_id row ≡ ok (id, nonce)
      → read_row channel_id row ≡ ok (other, m)
      → (id ≡ other) × (nonce ≡ m)
  same_row row h k = (cc, cc)

  Passed-seen :
      (before boundary : Option String) (scan next : Scan) (row : Value) (id : String)
      (seen nonce : Option String)
      → Scanned before boundary scan
      → read_row channel_id row ≡ ok (id, nonce)
      → Dict.get scan.page_seen id ≡ some seen
      → seen_again scan seen nonce ≡ ok next
      → Passed before boundary scan next row
  Passed-seen before boundary scan next row id seen nonce s valid at h =
      elim (Bool-cases (same_nonce seen nonce)) [
        | inr differs ↦ absurd (ground arith)
        | inl equal ↦
            let same : scan ≡ next = ground arith in
            let one : seen ≡ nonce = same_nonce_lem seen nonce equal in
            subst (λ x. Passed before boundary scan x row) same
              (record {
                scanned = s;
                grows = λ n i e. e;
                covered = λ i n v among.
                    let (ids, nonces) = same_row row valid v in
                    s.seen i n
                      (ap (λ x. Dict.get scan.page_seen x) (sym ids) ∙ at ∙ ap some (one ∙ nonces))
                      among;
              })
      ]

  Passed-boundary :
      (before boundary : Option String) (scan : Scan) (row : Value) (id : String)
      (nonce : Option String)
      → Scanned before boundary scan
      → read_row channel_id row ≡ ok (id, nonce)
      → before ≡ some id
      → nonce ≡ boundary
      → Passed before boundary scan (with_seen scan id nonce) row
  Passed-boundary before boundary scan row id nonce s valid at one = record {
    scanned = record {
      sound = s.sound;
      seen = λ i n e among. elim (Bool-cases (str_eq id i)) [
        | inl hit ↦
            let same : id ≡ i = (eq_iff id i).0 hit in
            let here : nonce ≡ some n =
              some-injective _ _ (sym (get-put id i nonce scan.page_seen ∙ rw hit refl) ∙ e) in
            subst (λ x. Entry channel_id keys scan.found n x) same
              (s.ended id n at (sym one ∙ here) among)
        | inr miss ↦ s.seen i n (sym (get-put id i nonce scan.page_seen ∙ rw miss refl) ∙ e) among
      ];
      ended = s.ended;
    };
    grows = λ n i e. e;
    covered = λ i n v among.
        let (ids, nonces) = same_row row valid v in
        subst (λ x. Entry channel_id keys scan.found n x) ids
          (s.ended id n at (sym one ∙ nonces) among);
  }

  Passed-match :
      (before boundary : Option String) (scan : Scan) (row : Value) (id : String)
      (nonce : Option String) (later : Dict Value)
      → Scanned before boundary scan
      → read_row channel_id row ≡ ok (id, nonce)
      → Added channel_id keys nonce id scan.found later
      → Passed before boundary scan (with_match scan id nonce later) row
  Passed-match before boundary scan row id nonce later s valid a = record {
    scanned = record {
      sound = a.sound;
      seen = λ i n e among. elim (Bool-cases (str_eq id i)) [
        | inl hit ↦
            let same : id ≡ i = (eq_iff id i).0 hit in
            let here : nonce ≡ some n =
              some-injective _ _ (sym (get-put id i nonce scan.page_seen ∙ rw hit refl) ∙ e) in
            subst (λ x. Entry channel_id keys later n x) same (a.added n here among)
        | inr miss ↦
            a.grows n i
              (s.seen i n (sym (get-put id i nonce scan.page_seen ∙ rw miss refl) ∙ e) among)
      ];
      ended = λ i n b e among. a.grows n i (s.ended i n b e among);
    };
    grows = a.grows;
    covered = λ i n v among.
        let (ids, nonces) = same_row row valid v in
        subst (λ x. Entry channel_id keys later n x) ids (a.added n nonces among);
  }

  pub scan_row-Passed :
      (before boundary : Option String) (scan next : Scan) (row : Value)
      → Scanned before boundary scan
      → scan_row channel_id keys before boundary scan row ≡ ok next
      → Passed before boundary scan next row
  unfolding scan_row
  scan_row-Passed before boundary scan next row s h =
      elim (Result-cases (read_row channel_id row)) [
        | inl (x, bad) ↦ absurd (ground arith)
        | inr ((id, nonce), valid) ↦ elim (Option-cases (Dict.get scan.page_seen id)) [
          | inr (seen, at) ↦
              Passed-seen before boundary scan next row id seen nonce s valid at (ground arith)
          | inl unseen ↦ elim (Bool-cases (when_some before (λ b. str_eq id b))) [
            | inl repeated ↦ elim (Bool-cases (scan.advanced || not (same_nonce nonce boundary))) [
              | inl bad ↦ absurd (ground arith)
              | inr fine ↦
                  let same : with_seen scan id nonce ≡ next = ground arith in
                  subst (λ x. Passed before boundary scan x row) same
                    (Passed-boundary before boundary scan row id nonce s valid
                      (is_before before id repeated) (same_nonce_lem nonce boundary (ground arith)))
            ]
            | inr fresh ↦
                elim (Bool-cases (when_some scan.previous (λ p. not_before (codes id) (codes p)))) [
                  | inl bad ↦ absurd (ground arith)
                  | inr fine ↦ elim (Result-cases (add_match keys nonce id row scan.found)) [
                    | inl (x, bad) ↦ absurd (ground arith)
                    | inr (later, made) ↦
                        let same : with_match scan id nonce later ≡ next = ground arith in
                        subst (λ x. Passed before boundary scan x row) same
                          (Passed-match before boundary scan row id nonce later s valid (
                            add_match-Added channel_id keys nonce id row scan.found later made valid
                              s.sound))
                  ]
                ]
          ]
        ]
      ]
    where
      is_before :
          (before : Option String) (id : String)
          → when_some before (λ b. str_eq id b) ≡ true
          → before ≡ some id
      is_before none id h = cc
      is_before (some b) id h = ap some (sym ((eq_iff id b).0 h))
