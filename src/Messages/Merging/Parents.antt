-- ===== src/Messages/Merging/Parents.antt =====
-- migrator/messages.py: which entry of the message map remains after channels are merged.
use discord_stoat_ferry.Prelude.{
  ◌≡◌, ◌≢◌, refl, sym, ap, ◌∙◌, String, str_eq, eq_iff, Bool, true, false, ◌&&◌, Option, none, some,
  [], ◌∷◌, arith, if◌then◌else◌, Bool-cases, Option-cases, ◌⊎◌, inl, inr,
}
use discord_stoat_ferry.Prelude.Dict
use discord_stoat_ferry.Prelude.Dict.{Dict, get-put}
use discord_stoat_ferry.Messages.Merging.{merge_map}

-- A dict has no key twice.
abbrev pub Unique : Dict String → Type 0
Unique [] = Unit {0}
Unique ((key, id) ∷ d) = (Dict.get d key ≡ none) × Unique d

abbrev pub is_some : Option String → Bool
is_some none = false
is_some (some id) = true

has-get : (d : Dict String) (key : String) → Dict.has d key ≡ is_some (Dict.get d key)
unfolding Dict.has Dict.get
has-get [] key = refl
has-get ((other, id) ∷ d) key = ground (arith, has-get d key)

-- The entry that remains: the update, unless it is the thread's own and another is there.
abbrev pub remaining : Bool → Option String → Option String → Option String
remaining own none old = old
remaining own (some new) none = some new
remaining own (some new) (some old) = if own then some old else some new

-- The state after one update.
abbrev one_more : String → String → String → Dict String → Dict String
one_more channel other id state =
    if str_eq other channel && Dict.has state other then state else Dict.put state other id

get-one_more :
    (channel other id key : String) (state : Dict String)
    → Dict.get (one_more channel other id state) key ≡ (
        if str_eq other key
        then remaining (str_eq other channel) (some id) (Dict.get state other)
        else Dict.get state key)
get-one_more channel other id key state = elim (Option-cases (Dict.get state other)) [
  | inl missing ↦
      ground (arith, missing, has-get state other, eq_iff other key, get-put other key id state)
  | inr (old, there) ↦
      ground (arith, there, has-get state other, eq_iff other key, get-put other key id state)
]

get-merge_map :
    (channel key : String) (updates state : Dict String)
    → Unique updates
    → Dict.get (merge_map channel updates state) key
      ≡ remaining (str_eq key channel) (Dict.get updates key) (Dict.get state key)
unfolding merge_map Dict.get
get-merge_map channel key [] state u = refl
get-merge_map channel key ((other, id) ∷ updates) state u =
    get-merge_map channel key updates (one_more channel other id state) u.1
    ∙ ap (remaining (str_eq key channel) (Dict.get updates key))
        (get-one_more channel other id key state)
    ∙ (elim (Bool-cases (str_eq other key)) [
      | inl same ↦
          let e = (eq_iff other key).0 same in
          let gone : Dict.get updates key ≡ none = ap (Dict.get updates) (sym e) ∙ u.0 in
          rw (same, gone, e) refl
      | inr differs ↦ rw differs
    ])

-- A thread's channel merged after its parent's, and before.
abbrev pub thread_last : String → String → Dict String → Dict String → Dict String → Dict String
thread_last thread parent of_thread of_parent state =
    merge_map thread of_thread (merge_map parent of_parent state)

abbrev pub parent_last : String → String → Dict String → Dict String → Dict String → Dict String
parent_last thread parent of_thread of_parent state =
    merge_map parent of_parent (merge_map thread of_thread state)

module _ (thread parent : String) (of_thread of_parent state : Dict String)
    (unique_thread : Unique of_thread) (unique_parent : Unique of_parent) where
  after_thread :
      (key : String)
      → Dict.get (thread_last thread parent of_thread of_parent state) key
        ≡ remaining
            (str_eq key thread)
            (Dict.get of_thread key)
            (remaining (str_eq key parent) (Dict.get of_parent key) (Dict.get state key))
  after_thread key =
      get-merge_map thread key of_thread (merge_map parent of_parent state) unique_thread
      ∙ ap (remaining (str_eq key thread) (Dict.get of_thread key))
          (get-merge_map parent key of_parent state unique_parent)

  after_parent :
      (key : String)
      → Dict.get (parent_last thread parent of_thread of_parent state) key
        ≡ remaining
            (str_eq key parent)
            (Dict.get of_parent key)
            (remaining (str_eq key thread) (Dict.get of_thread key) (Dict.get state key))
  after_parent key =
      get-merge_map parent key of_parent (merge_map thread of_thread state) unique_parent
      ∙ ap (remaining (str_eq key parent) (Dict.get of_parent key))
          (get-merge_map thread key of_thread state unique_thread)

-- Two updates commute where one is missing, or where the parent's replaces the thread's.
remaining_comm :
    (own_thread own_parent : Bool) (t p s : Option String)
    → (own_parent ≡ true → p ≡ none)
    → (own_thread ≡ false → (t ≡ none) ⊎ (p ≡ none))
    → remaining own_thread t (remaining own_parent p s)
      ≡ remaining own_parent p (remaining own_thread t s)
remaining_comm o q none p s not_own apart = refl
remaining_comm o q (some t) none s not_own apart = refl
remaining_comm o true (some t) (some p) s not_own apart = cc (not_own refl)
remaining_comm true false (some t) (some p) none not_own apart = refl
remaining_comm true false (some t) (some p) (some s) not_own apart = refl
remaining_comm false false (some t) (some p) s not_own apart = absurd (neither (apart refl))
  where
    neither : (some t ≡ none) ⊎ (some p ≡ none) → ⊥
    neither (inl e) = cc
    neither (inr e) = cc

-- The order in which channels finish does not matter. Where a thread and its parent channel have entries
-- for one message at most, the one whose identifier is the thread's, and the parent has none under
-- its own channel identifier, the message map looks the same whichever of the two is merged first, and
-- the parent's entry for that message is the one that remains.
pub merge_map-parent_wins :
    (thread parent : String) (of_thread of_parent state : Dict String)
    → Unique of_thread
    → Unique of_parent
    → Dict.get of_parent parent ≡ none
    → ((key : String)
        → key ≢ thread
        → (Dict.get of_thread key ≡ none) ⊎ (Dict.get of_parent key ≡ none))
    → ((key : String)
        → Dict.get (thread_last thread parent of_thread of_parent state) key
          ≡ Dict.get (parent_last thread parent of_thread of_parent state) key)
      × ((id : String)
          → Dict.get of_parent thread ≡ some id
          → Dict.get (thread_last thread parent of_thread of_parent state) thread ≡ some id)
merge_map-parent_wins thread parent of_thread of_parent state ut up not_own apart =
    let same : (key : String)
        → Dict.get (thread_last thread parent of_thread of_parent state) key
          ≡ Dict.get (parent_last thread parent of_thread of_parent state) key =
      λ key.
        after_thread thread parent of_thread of_parent state ut up key
        ∙ remaining_comm (str_eq key thread) (str_eq key parent) (Dict.get of_thread key)
            (Dict.get of_parent key) (Dict.get state key)
            (λ e. ap (Dict.get of_parent) ((eq_iff key parent).0 e) ∙ not_own)
            (λ e. apart key (λ same. cc ((eq_iff key thread).1 same)))
        ∙ sym (after_parent thread parent of_thread of_parent state ut up key) in
    (
      same,
      λ id there.
          same thread
          ∙ after_parent thread parent of_thread of_parent state ut up thread
          ∙ kept (str_eq thread parent) (Dict.get of_parent thread) id
              (remaining (str_eq thread thread) (Dict.get of_thread thread) (Dict.get state thread))
              there (λ e. ap (Dict.get of_parent) ((eq_iff thread parent).0 e) ∙ not_own),
    )
  where
    kept :
        (own : Bool) (p : Option String) (id : String) (s : Option String)
        → p ≡ some id
        → (own ≡ true → p ≡ none)
        → remaining own p s ≡ some id
    kept true p id s there never = cc (never refl)
    kept false none id s there never = cc
    kept false (some new) id none there never = there
    kept false (some new) id (some old) there never = there
