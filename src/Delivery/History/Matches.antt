-- ===== src/Delivery/History/Matches.antt =====
-- `_find_messages` finds exactly the messages of the history that have a wanted key.
use mathlib.Core.Option.{some-injective}
use discord_stoat_ferry.Prelude.{
  ◌≡◌, refl, ap, sym, ◌∙◌, subst, String, str_eq, eq_iff, Bool, true, false, not, Option, none,
  some, List, [], ◌∷◌, ◌++◌, length, if◌then◌else◌, arith, ltb, Bool-cases, inl, inr,
}
use discord_stoat_ferry.Prelude.Result.{ok}
use discord_stoat_ferry.Prelude.Dict
use discord_stoat_ferry.Prelude.Dict.{Dict, get-put}
use discord_stoat_ferry.Prelude.Json.{
  Value, null, boolean, string, number, array, object, member, is_text,
}
use discord_stoat_ferry.Delivery.Receipt.{is_among}
use discord_stoat_ferry.Delivery.History.{
  Page, read_row, valid_row, valid_id, add_match, same_nonce, when_some,
}

-- The rows up to the end of the first page that is not full.
unfoldable pub history : List Page → List Value
history [] = []
history (none ∷ pages) = []
history (some rows ∷ pages) =
    let rest = history pages in if ltb (length rows) 100 then rows else rows ++ rest

id_of_valid :
    (value : Value) (id other : String)
    → valid_id value ≡ some id
    → is_text value (λ o. str_eq o other) ≡ str_eq id other
unfolding is_text
id_of_valid (string s) id other h = ground arith
id_of_valid null id other h = cc
id_of_valid (boolean b) id other h = cc
id_of_valid (number n) id other h = cc
id_of_valid (array items) id other h = cc
id_of_valid (object fields) id other h = cc

id_of_valid_row :
    (valid : Option String) (here : Bool) (nonce : Option (Option String)) (id : String)
    (n : Option String)
    → valid_row valid here nonce ≡ ok (id, n)
    → valid ≡ some id
id_of_valid_row (some i) true (some m) id n h = cc
id_of_valid_row (some i) true none id n h = cc
id_of_valid_row (some i) false m id n h = cc
id_of_valid_row none here m id n h = cc

pub same_nonce_lem : (a b : Option String) → same_nonce a b ≡ true → a ≡ b
same_nonce_lem none none h = refl
same_nonce_lem none (some b) h = cc
same_nonce_lem (some a) none h = cc
same_nonce_lem (some a) (some b) h = ap some ((eq_iff a b).0 h)

module _ (channel_id : String) (keys : List String) where
  -- The message with the nonce is found, under this identifier.
  pub record Entry (found : Dict Value) (nonce id : String) : Type 0 where
    pub row : Value
    pub at : Dict.get found nonce ≡ some row
    pub valid : read_row channel_id row ≡ ok (id, some nonce)

  abbrev pub Sound : Dict Value → Type 0
  Sound found =
      (nonce : String) (row : Value)
      → Dict.get found nonce ≡ some row
      → (is_among keys nonce ≡ true)
        × (id : String) × (read_row channel_id row ≡ ok (id, some nonce))

  abbrev pub Grows : Dict Value → Dict Value → Type 0
  Grows found later = (nonce id : String) → Entry found nonce id → Entry later nonce id

  id_of_row :
      (row : Value) (id other : String) (nonce : Option String)
      → read_row channel_id row ≡ ok (id, nonce)
      → is_text (member row "_id") (λ o. str_eq o other) ≡ str_eq id other
  unfolding read_row
  id_of_row row id other nonce h =
      id_of_valid (member row "_id") id other
        (id_of_valid_row (valid_id (member row "_id")) _ _ id nonce h)

  -- What adding a row to the matches keeps and gives.
  pub record Added (nonce : Option String) (id : String) (found later : Dict Value) : Type 0 where
    pub sound : Sound later
    pub grows : Grows found later
    pub added : (n : String) → nonce ≡ some n → is_among keys n ≡ true → Entry later n id

  Added-put :
      (n id : String) (row : Value) (found : Dict Value)
      → Sound found
      → read_row channel_id row ≡ ok (id, some n)
      → is_among keys n ≡ true
      → ((other : Value)
          → Dict.get found n ≡ some other
          → is_text (member other "_id") (λ o. str_eq o id) ≡ true)
      → Added (some n) id found (Dict.put found n row)
  Added-put n id row found s valid wanted unique = record {
    sound = λ m r e. elim (Bool-cases (str_eq n m)) [
      | inl hit ↦
          let same : n ≡ m = (eq_iff n m).0 hit in
          let here : row ≡ r = some-injective _ _ (sym (get-put n m row found ∙ rw hit refl) ∙ e) in
          (
            subst (λ x. is_among keys x ≡ true) same wanted,
            id,
            subst (λ x. read_row channel_id x ≡ ok (id, some m)) here
                (subst (λ x. read_row channel_id row ≡ ok (id, some x)) same valid),
          )
      | inr miss ↦ s m r (sym (get-put n m row found ∙ rw miss refl) ∙ e)
    ];
    grows = λ m i old. elim (Bool-cases (str_eq n m)) [
      | inr miss ↦ record {
        row = old.row;
        at = get-put n m row found ∙ rw miss old.at;
        valid = old.valid;
      }
      | inl hit ↦
          let same : n ≡ m = (eq_iff n m).0 hit in
          let held : Dict.get found n ≡ some old.row =
            subst (λ x. Dict.get found x ≡ some old.row) (sym same) old.at in
          let equal : i ≡ id =
            (eq_iff i id).0
              (sym (id_of_row old.row i id (some m) old.valid) ∙ unique old.row held) in
          record {
            row = row;
            at = get-put n m row found ∙ rw hit refl;
            valid =
                subst (λ x. read_row channel_id row ≡ ok (x, some m)) (sym equal)
                  (subst (λ x. read_row channel_id row ≡ ok (id, some x)) same valid);
          }
    ];
    added = λ m e among.
        let same : n ≡ m = some-injective _ _ e in
        subst (λ x. Entry (Dict.put found n row) x id) same
          (record {
            row = row;
            at = get-put n n row found ∙ ground (arith, eq_iff n n);
            valid = valid;
          });
  }

  pub add_match-Added :
      (nonce : Option String) (id : String) (row : Value) (found later : Dict Value)
      → add_match keys nonce id row found ≡ ok later
      → read_row channel_id row ≡ ok (id, nonce)
      → Sound found
      → Added nonce id found later
  add_match-Added none id row found later h valid s =
      let same : found ≡ later = cc in
      subst (Added none id found) same (record { sound = s; grows = λ n i e. e; added = λ n e. cc })
  add_match-Added (some n) id row found later h valid s = elim (Bool-cases (is_among keys n)) [
    | inr unwanted ↦
        let same : found ≡ later = ground arith in
        subst (Added (some n) id found) same (record {
          sound = s;
          grows = λ m i e. e;
          added = λ m e among.
              let equal : n ≡ m = some-injective _ _ e in
              absurd (cc (subst (λ x. is_among keys x ≡ true) (sym equal) among, unwanted));
        })
    | inl wanted ↦
        elim (Bool-cases (
          when_some (Dict.get found n)
            (λ other. not (is_text (member other "_id") (λ o. str_eq o id))))) [
              | inl clash ↦ absurd (ground arith)
              | inr free ↦
                  let same : Dict.put found n row ≡ later = ground arith in
                  subst (Added (some n) id found) same
                    (Added-put n id row found s valid wanted λ other e. ground arith)
            ]
  ]
