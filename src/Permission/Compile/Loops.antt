-- ===== src/Permission/Compile/Loops.antt =====
-- core/permissions.py: the loops of `compile_supported_bits` write each target once, and rightly.
use discord_stoat_ferry.Prelude.{
  ℕ, ◌^◌, ◌≡◌, refl, sym, ap, subst, not, ◌&&◌, ◌∙◌, Bool, true, false, none, some, List, [], ◌∷◌,
  ◌++◌, length, map, arith, All, ◌==◌,
}
use discord_stoat_ferry.Prelude.Result.{ok, err, ◌>>=◌}
use discord_stoat_ferry.Permission.Translation.{contains}
use discord_stoat_ferry.Permission.Compile.{
  PermissionCell, Proposal, Predicates, Compiled, and_then, compile_target, compile_targets,
  compile_table,
}
use discord_stoat_ferry.Permission.Compile.Cells.{IsClearAt}
use discord_stoat_ferry.Permission.Compile.Keeps.{
  Keeps, Keeps-refl, Keeps-trans, propose-Keeps, set_operations-length,
}
use discord_stoat_ferry.Permission.Compile.Writes.{
  Wrote, IsRead, compile_target-Wrote, Wrote-IsRead, IsRead-Keeps,
}

abbrev pub paired : ℕ → List ℕ → List (ℕ × ℕ)
paired permission targets = map (λ target. (permission, target)) targets

-- The permissions of a table with each of their targets.
unfoldable pub pairs_of : List (ℕ × List ℕ) → List (ℕ × ℕ)
pairs_of [] = []
pairs_of ((permission, targets) ∷ table) = paired permission targets ++ pairs_of table

-- No position stands twice.
unfoldable pub distinct : List ℕ → Bool
distinct [] = true
distinct (target ∷ targets) = not (contains targets target) && distinct targets

module _ (predicates : Predicates) (fixed : List PermissionCell) where
  and_then-some :
      (first : Compiled) (next : Proposal → Compiled) (final : Proposal)
      → (first >>= λ done. and_then done next) ≡ ok (some final)
      → (p : Proposal) × (first ≡ ok (some p)) × (next p ≡ ok (some final))
  and_then-some (err e) next final h = cc
  and_then-some (ok none) next final h = cc
  and_then-some (ok (some p)) next final h = (p, refl, h)

  -- Each pair of a permission and a target was written, in turn.
  pub Written : List (ℕ × ℕ) → Proposal → Proposal → Type 0
  Written [] before after = before ≡ after
  Written ((permission, target) ∷ pairs) before after =
      (next : Proposal) × Wrote predicates fixed permission target before next
      × Written pairs next after

  Written-append :
      (first second : List (ℕ × ℕ)) (a b c : Proposal)
      → Written first a b
      → Written second b c
      → Written (first ++ second) a c
  unfolding Written
  Written-append [] second a b c w v = subst (λ p. Written second p c) (sym w) v
  Written-append (pair ∷ first) second a b c (next, wrote, w) v =
      (next, wrote, Written-append first second next b c w v)

  compile_targets-Written :
      (permission : ℕ) (targets : List ℕ) (before after : Proposal)
      → compile_targets predicates fixed permission targets before ≡ ok (some after)
      → Written (paired permission targets) before after
  unfolding compile_targets Written
  compile_targets-Written permission [] before after h = cc
  compile_targets-Written permission (target ∷ targets) before after h =
      let (next, e, rest) =
        and_then-some (compile_target predicates fixed permission target before)
          (compile_targets predicates fixed permission targets) after h in
      (
        next,
        compile_target-Wrote predicates fixed permission target before next e,
        compile_targets-Written permission targets next after rest,
      )

  -- A table that is compiled was written.
  pub compile_table-Written :
      (table : List (ℕ × List ℕ)) (before after : Proposal)
      → compile_table predicates fixed table before ≡ ok (some after)
      → Written (pairs_of table) before after
  unfolding compile_table Written pairs_of
  compile_table-Written [] before after h = cc
  compile_table-Written ((permission, targets) ∷ table) before after h =
      let (next, e, rest) =
        and_then-some (compile_targets predicates fixed permission targets before)
          (compile_table predicates fixed table) after h in
      Written-append (paired permission targets) (pairs_of table) before next after
        (compile_targets-Written permission targets before next e)
        (compile_table-Written table next after rest)

  Wrote-Keeps :
      (permission target other : ℕ) (before after : Proposal)
      → target == other ≡ false
      → Wrote predicates fixed permission target before after
      → Keeps other before after
  Wrote-Keeps permission target other before after apart wrote =
      subst (Keeps other before) wrote.is_next
        (propose-Keeps target other apart wrote.operations wrote.base before)

  -- Other positions are kept.
  pub Written-Keeps :
      (pairs : List (ℕ × ℕ)) (other : ℕ) (before after : Proposal)
      → contains (map (λ p. p.1) pairs) other ≡ false
      → Written pairs before after
      → Keeps other before after
  unfolding Written contains
  Written-Keeps [] other before after apart w =
      subst (Keeps other before) w (Keeps-refl other before)
  Written-Keeps ((permission, target) ∷ pairs) other before after apart (next, wrote, w) =
      Keeps-trans other before next after
        (Wrote-Keeps permission target other before next (ground arith) wrote)
        (Written-Keeps pairs other next after (ground arith) w)

  Wrote-count :
      (permission target : ℕ) (before after : Proposal)
      → Wrote predicates fixed permission target before after
      → length after.roles ≡ length before.roles
  Wrote-count permission target before after wrote =
      ap (λ p. length p.roles) (sym wrote.is_next)
      ∙ set_operations-length wrote.operations (2 ^ target) before.roles

  IsClearAt-Wrote :
      (permission target : ℕ) (pairs : List (ℕ × ℕ)) (before next : Proposal)
      → contains (map (λ p. p.1) pairs) target ≡ false
      → Wrote predicates fixed permission target before next
      → All (λ p. IsClearAt p.1 before) pairs
      → All (λ p. IsClearAt p.1 next) pairs
  unfolding contains
  IsClearAt-Wrote permission target [] before next fresh wrote clear = tt
  IsClearAt-Wrote permission target ((_, other) ∷ pairs) before next fresh wrote clear = (
    (Wrote-Keeps permission target other before next (ground arith) wrote).clear clear.0,
    IsClearAt-Wrote permission target pairs before next (ground arith) wrote clear.1,
  )

  -- Where each target stands once and was clear, all is read as it was found.
  pub Written-IsRead :
      (pairs : List (ℕ × ℕ)) (before after : Proposal)
      → distinct (map (λ p. p.1) pairs) ≡ true
      → length before.roles ≡ length fixed
      → All (λ p. IsClearAt p.1 before) pairs
      → Written pairs before after
      → All (λ p. IsRead predicates fixed p.0 p.1 after) pairs
  unfolding Written distinct
  Written-IsRead [] before after once size clear w = tt
  Written-IsRead ((permission, target) ∷ pairs) before after once size clear (next, wrote, w) =
      let fresh : contains (map (λ p. p.1) pairs) target ≡ false = ground arith in
      (
        IsRead-Keeps predicates fixed permission target next after
            (Wrote-IsRead predicates fixed permission target before next wrote size clear.0)
            (Written-Keeps pairs target next after fresh w),
        Written-IsRead pairs next after (ground arith)
            (Wrote-count permission target before next wrote ∙ size)
            (IsClearAt-Wrote permission target pairs before next fresh wrote clear.1) w,
      )
