-- ===== src/Permission/Compile/Writes.antt =====
-- core/permissions.py: what one target of `compile_supported_bits` writes is read back as found.
use discord_stoat_ferry.Prelude.{
  ℕ, ◌≡◌, sym, ap, ◌∙◌, Bool, Option, none, some, List, [], ◌∷◌, length,
}
use discord_stoat_ferry.Prelude.Result.{ok, >>=-eq-ok}
use discord_stoat_ferry.Bits.{low_mask}
use discord_stoat_ferry.Permission.Synthesis.{synthesize_bit}
use discord_stoat_ferry.Permission.Synthesis.Agreement.{encoding_matches-synthesize_bit}
use discord_stoat_ferry.Permission.Compile.{
  PermissionCell, Proposal, Predicates, grants_from, bases_of, query_of, try_bases, propose,
  Attempt, found_or, Compiled, proposed, compile_target, base_at, operations_at,
}
use discord_stoat_ferry.Permission.Compile.Cells.{
  IsClearAt, operations_at-set_operations, base_at-propose,
}
use discord_stoat_ferry.Permission.Compile.Keeps.{Keeps}

module _ (predicates : Predicates) (fixed : List PermissionCell) where
  -- The operations and the base that `synthesize_bit` found for a target.
  pub record Found (permission target : ℕ) (operations : List (Option Bool)) (base : Bool)
      : Type 0 where
    pub synthesized :
        synthesize_bit
          (length fixed)
          (query_of predicates permission
            (low_mask (length fixed))
            (grants_from 0 fixed target)
            base)
          (grants_from 0 fixed target)
          base
        ≡ ok (some operations)

  found_or-Found :
      (permission target : ℕ) (found : Option (List (Option Bool))) (b : Bool) (rest : Attempt)
      (operations : List (Option Bool)) (base : Bool)
      → synthesize_bit
          (length fixed)
          (query_of predicates permission (low_mask (length fixed)) (grants_from 0 fixed target) b)
          (grants_from 0 fixed target)
          b
        ≡ ok found
      → (rest ≡ ok (some (operations, base)) → Found permission target operations base)
      → found_or found b rest ≡ ok (some (operations, base))
      → Found permission target operations base
  found_or-Found permission target none b rest operations base e later h = later h
  found_or-Found permission target (some ops) b rest operations base e later h =
      let one : ops ≡ operations = cc in
      let two : b ≡ base = cc in record { synthesized = rw (← one, ← two) e }

  try_bases-Found :
      (permission target : ℕ) (bases : List Bool) (operations : List (Option Bool)) (base : Bool)
      → try_bases predicates permission (length fixed) (grants_from 0 fixed target) bases
        ≡ ok (some (operations, base))
      → Found permission target operations base
  unfolding try_bases
  try_bases-Found permission target [] operations base h = cc
  try_bases-Found permission target (b ∷ bases) operations base h =
      let rest =
        try_bases predicates permission (length fixed) (grants_from 0 fixed target) bases in
      let (found, e, after) =
        >>=-eq-ok
          (synthesize_bit (length fixed)
            (query_of predicates permission (low_mask (length fixed)) (grants_from 0 fixed target)
              b)
            (grants_from 0 fixed target) b)
          (λ found. found_or found b rest) h in
      found_or-Found permission target found b rest operations base e
        (try_bases-Found permission target bases operations base) after

  -- One target that was written.
  pub record Wrote (permission target : ℕ) (proposal next : Proposal) : Type 0 where
    pub operations : List (Option Bool)
    pub base : Bool
    pub found : Found permission target operations base
    pub is_next : propose operations base target proposal ≡ next

  pub compile_target-Wrote :
      (permission target : ℕ) (proposal next : Proposal)
      → compile_target predicates fixed permission target proposal ≡ ok (some next)
      → Wrote permission target proposal next
  unfolding compile_target
  compile_target-Wrote permission target proposal next h =
      let (found, e, after) =
        >>=-eq-ok
          (try_bases predicates permission (length fixed) (grants_from 0 fixed target)
            (bases_of predicates permission))
          (λ found. ok (proposed found target proposal)) h in
      go found e after
    where
      go :
          (found : Option (List (Option Bool) × Bool))
          → try_bases predicates permission
              (length fixed)
              (grants_from 0 fixed target)
              (bases_of predicates permission)
            ≡ ok found
          → ◌≡◌ {A = Compiled} (ok (proposed found target proposal)) (ok (some next))
          → Wrote permission target proposal next
      go none e after = cc
      go (some (operations, base)) e after = record {
        operations = operations;
        base = base;
        found =
            try_bases-Found permission target (bases_of predicates permission) operations base e;
        is_next = cc;
      }

  -- A target of which the cells say what was found.
  pub record IsRead (permission target : ℕ) (proposal : Proposal) : Type 0 where
    pub operations : List (Option Bool)
    pub base : Bool
    pub found : Found permission target operations base
    pub read : operations_at proposal.roles target ≡ operations
    pub read_base : (server_default : ℕ) → base_at server_default proposal target ≡ base

  pub Wrote-IsRead :
      (permission target : ℕ) (proposal next : Proposal)
      → Wrote permission target proposal next
      → length proposal.roles ≡ length fixed
      → IsClearAt target proposal
      → IsRead permission target next
  Wrote-IsRead permission target proposal next wrote size clear =
      let (count, accepted) =
        encoding_matches-synthesize_bit (length fixed)
          (query_of predicates permission (low_mask (length fixed)) (grants_from 0 fixed target)
            wrote.base)
          (grants_from 0 fixed target) wrote.base wrote.operations wrote.found.synthesized in
      record {
        operations = wrote.operations;
        base = wrote.base;
        found = wrote.found;
        read =
            ap (λ p. operations_at p.roles target) (sym wrote.is_next)
            ∙ operations_at-set_operations wrote.operations target proposal.roles (count ∙ sym size)
                clear.roles;
        read_base = λ server_default.
            ap (λ p. base_at server_default p target) (sym wrote.is_next)
            ∙ base_at-propose server_default wrote.operations wrote.base target proposal
                clear.default;
      }

  pub IsRead-Keeps :
      (permission target : ℕ) (before after : Proposal)
      → IsRead permission target before
      → Keeps target before after
      → IsRead permission target after
  IsRead-Keeps permission target before after is keeps = record {
    operations = is.operations;
    base = is.base;
    found = is.found;
    read = keeps.operations ∙ is.read;
    read_base = λ server_default. keeps.base server_default ∙ is.read_base server_default;
  }
