-- ===== src/Export/Failures.antt =====
-- core/engine.py: what holds of all retries that `_failed_ids` groups holds of the failures.
use discord_stoat_ferry.Prelude.{
  leb, all, false, ◌<◌, refl, ◌&&◌, eq_iff, ℕ, ◌<◌, ◌≡◌, sym, subst, String, str_eq, true, some,
  List, [], ◌∷◌, ◌++◌, arith, All, Bool-cases, Option-cases, inl, inr,
}
use discord_stoat_ferry.Delivery.Receipt.{DeliveryRef, codes}
use discord_stoat_ferry.Messages.Merging.{FailedMessage}
use discord_stoat_ferry.Export.{
  is_empty, is_snowflake, among, sources_known, int_of, is_snowflake, Retries, all_retries,
  add_retry, group_failures,
}

pub All-append_split {ℓ κ} :
    {A : Type ℓ} (P : A → Type κ) (xs ys : List A) → All P (xs ++ ys) → All P xs × All P ys
All-append_split P [] ys h = (tt, h)
All-append_split P (x ∷ xs) ys h =
    let rest = All-append_split P xs ys h.1 in ((h.0, rest.0), rest.1)

-- A positive number in decimal digits.
abbrev pub IsNumber : String → Type 0
IsNumber text =
    (is_empty (codes text) ≡ false)
    × (all (λ c. leb b'0' c && leb c b'9') (codes text) ≡ true)
    × (0 < int_of text)

pub is_snowflake-IsNumber : (text : String) → is_snowflake text ≡ true → IsNumber text
unfolding is_snowflake
is_snowflake-IsNumber text h = (ground arith, ground arith, ground arith)

-- The failures whose message a bound does not pass.
abbrev pub AllAfter : ℕ → List FailedMessage → Type 0
AllAfter bound = All (λ (failure : FailedMessage).
    IsNumber failure.discord_msg_id × (bound < int_of failure.discord_msg_id))

module _ (P : String → Type 0) where
  All-append_join : (xs ys : List String) → All P xs → All P ys → All P (xs ++ ys)
  All-append_join [] ys hx hy = hy
  All-append_join (x ∷ xs) ys hx hy = (hx.0, All-append_join xs ys hx.1 hy)

  -- What holds of all retries after one is added holds of it, and of those before.
  add_retry-split :
      (retries : Retries) (source id : String)
      → All P (all_retries (add_retry retries source id))
      → P id × All P (all_retries retries)
  unfolding all_retries add_retry
  add_retry-split [] source id h = (h.0, tt)
  add_retry-split ((other, ids) ∷ retries) source id h = elim (Bool-cases (str_eq other source)) [
    | inl same ↦
        let parts = All-append_split P (ids ++ id ∷ []) (all_retries retries) (rw same at h) in
        let own = All-append_split P ids (id ∷ []) parts.0 in
        (own.1.0, All-append_join ids (all_retries retries) own.0 parts.1)
    | inr more ↦
        let parts =
          All-append_split P ids (all_retries (add_retry retries source id)) (rw more at h) in
        let rest = add_retry-split retries source id parts.1 in
        (rest.0, All-append_join ids (all_retries retries) parts.0 rest.1)
  ]

  pub group_failures-All :
      (grouped after : Retries) (failures : List FailedMessage)
      → group_failures grouped failures ≡ some after
      → All P (all_retries after)
      → All P (all_retries grouped) × All (λ failure. P failure.discord_msg_id) failures
  unfolding group_failures
  group_failures-All grouped after [] h all_after =
      let same : grouped ≡ after = cc in
      (subst (λ g. All P (all_retries g)) (sym same) all_after, tt)
  group_failures-All grouped after (failure ∷ failures) h all_after =
      elim (Option-cases failure.delivery_ref) [
        | inl missing ↦ absurd (ground arith)
        | inr (ref, there) ↦
            let step : group_failures
                  (add_retry grouped ref.source_channel_id failure.discord_msg_id) failures
                ≡ some after =
              ground arith in
            let rest =
              group_failures-All (add_retry grouped ref.source_channel_id failure.discord_msg_id)
                after failures step all_after in
            let own = add_retry-split grouped ref.source_channel_id failure.discord_msg_id rest.0 in
            (own.1, (own.0, rest.1))
      ]

-- The failure's delivery is known, and from one of the sources.
abbrev pub IsFromSource : List String → FailedMessage → Type 0
IsFromSource ids failure =
    (ref : DeliveryRef) × (failure.delivery_ref ≡ some ref)
    × (among ref.source_channel_id ids ≡ true)

module _ (ids : List String) where
  -- Adding a retry keeps the sources known only if its own is.
  add_retry-known :
      (retries : Retries) (source id : String)
      → sources_known ids (add_retry retries source id) ≡ true
      → (among source ids ≡ true) × (sources_known ids retries ≡ true)
  unfolding add_retry
  add_retry-known [] source id h = (ground arith, refl)
  add_retry-known ((other, old) ∷ retries) source id h = elim (Bool-cases (str_eq other source)) [
    | inl same ↦
        let equal : other ≡ source = (eq_iff other source).0 same in
        let known : sources_known ids ((other, old) ∷ retries) ≡ true = rw same at h in
        let first : among other ids ≡ true = ground arith in
        (subst (λ o. among o ids ≡ true) equal first, known)
    | inr more ↦
        let known : (among other ids && sources_known ids (add_retry retries source id)) ≡ true =
          rw more at h in
        let rest = add_retry-known retries source id (ground arith) in
        (rest.0, ground (arith, rest.1))
  ]

  pub group_failures-IsFromSource :
      (grouped after : Retries) (failures : List FailedMessage)
      → group_failures grouped failures ≡ some after
      → sources_known ids after ≡ true
      → (sources_known ids grouped ≡ true) × All (IsFromSource ids) failures
  unfolding group_failures
  group_failures-IsFromSource grouped after [] h known =
      let same : grouped ≡ after = cc in
      (subst (λ g. sources_known ids g ≡ true) (sym same) known, tt)
  group_failures-IsFromSource grouped after (failure ∷ failures) h known =
      elim (Option-cases failure.delivery_ref) [
        | inl missing ↦ absurd (ground arith)
        | inr (ref, there) ↦
            let step : group_failures
                  (add_retry grouped ref.source_channel_id failure.discord_msg_id) failures
                ≡ some after =
              ground arith in
            let rest =
              group_failures-IsFromSource
                (add_retry grouped ref.source_channel_id failure.discord_msg_id) after failures step
                known in
            let own = add_retry-known grouped ref.source_channel_id failure.discord_msg_id rest.0 in
            (own.1, ((ref, there, own.0), rest.1))
      ]
