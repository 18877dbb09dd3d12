-- ===== src/Permission/Source/Toggle.antt =====
-- `_source_role_changes_bit` tells whether a role can change the source result.
use discord_stoat_ferry.Prelude.{
  ℕ, ◌^◌, ◌≡◌, ◌≢◌, ◌↔◌, true, false, arith, Bool-cases, if◌then◌else◌, inl, inr,
}
use discord_stoat_ferry.Bits.{
  bit, truthy, bit_or, without, bit-bit_or, bit-without, bit-zero, truthy-bit_and-pow,
  bit_of_truthy,
}
use discord_stoat_ferry.Bits.Hits.{zero-hits, hits-bit_or, hits-with, hit_of_covered}
use discord_stoat_ferry.Permission.Predicate.{BitPredicate, evaluate_source_bit}
use discord_stoat_ferry.Permission.Source.{source_role_changes_bit}

module _ (r : BitPredicate) (k : ℕ) where
  -- Where the answer is no, assigning the role changes no membership's result.
  pub evaluate_of_no_change :
      source_role_changes_bit r (2 ^ k) ≡ false
      → (members : ℕ)
      → evaluate_source_bit r (bit_or members (2 ^ k)) ≡ evaluate_source_bit r members
  unfolding source_role_changes_bit evaluate_source_bit
  evaluate_of_no_change h members = ground (
    arith,
    truthy-bit_and-pow r.p k,
    truthy-bit_and-pow r.n k,
    truthy-bit_and-pow r.g k,
    hits-with r.p members k,
    hits-with r.n members k,
    hits-with r.g members k,
    hit_of_covered r.n r.p members,
    hit_of_covered r.g (bit_or r.p r.n) members,
    hits-bit_or r.p r.n members,
  )

  -- A membership whose result the role changes, where the answer is yes: nobody, or one other role.
  abbrev witness_mask : ℕ
  witness_mask =
      if bit r.p k
      then (if r.c then without r.n r.p else 0)
      else if bit r.n k
      then (if r.c then 0 else without r.g (bit_or r.p r.n))
      else 0

  changed :
      source_role_changes_bit r (2 ^ k) ≡ true
      → (members : ℕ) × (evaluate_source_bit r (bit_or members (2 ^ k))
          ≢ evaluate_source_bit r members)
  unfolding source_role_changes_bit evaluate_source_bit
  changed h = elim (Bool-cases (truthy witness_mask)) [
    | inl other ↦
        let (j, p) = bit_of_truthy witness_mask other in
        (
          2 ^ j,
          ground (
            arith,
            truthy-bit_and-pow r.p k,
            truthy-bit_and-pow r.n k,
            truthy-bit_and-pow r.g k,
            hits-with r.p (2 ^ j) k,
            hits-with r.n (2 ^ j) k,
            hits-with r.g (2 ^ j) k,
            truthy-bit_and-pow r.p j,
            truthy-bit_and-pow r.n j,
            truthy-bit_and-pow r.g j,
            bit-without r.n r.p j,
            bit-without r.g (bit_or r.p r.n) j,
            bit-bit_or r.p r.n j,
            bit-zero j,
          ),
        )
    | inr nobody ↦ (
      0,
      ground (
        arith,
        truthy-bit_and-pow r.p k,
        truthy-bit_and-pow r.n k,
        truthy-bit_and-pow r.g k,
        hits-with r.p 0 k,
        hits-with r.n 0 k,
        hits-with r.g 0 k,
        zero-hits r.p,
        zero-hits r.n,
        zero-hits r.g,
      ),
    )
  ]

-- `_source_role_changes_bit` is true exactly if there is a membership whose source result changes
-- when the role is assigned to it.
pub source_role_changes_bit_iff :
    (r : BitPredicate) (k : ℕ)
    → (source_role_changes_bit r (2 ^ k) ≡ true) ↔ (
        (members : ℕ) × (evaluate_source_bit r (bit_or members (2 ^ k))
          ≢ evaluate_source_bit r members))
source_role_changes_bit_iff r k = (
  changed r k,
  λ (members, differs). elim (Bool-cases (source_role_changes_bit r (2 ^ k))) [
    | inl can_change ↦ can_change
    | inr no_change ↦ absurd (differs (evaluate_of_no_change r k no_change members))
  ],
)
