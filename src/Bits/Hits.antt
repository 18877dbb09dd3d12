-- ===== src/Bits/Hits.antt =====
-- `a & b` as a condition, for the masks that loops build.
use discord_stoat_ferry.Prelude.{
  ℕ, ◌^◌, ◌≡◌, ◌∙◌, sym, true, false, ◌||◌, arith, Bool-cases, eq_of_both_true, inl, inr,
}
use discord_stoat_ferry.Bits.{
  bit, truthy, bit_and, bit_or, without, bit-bit_or, bit-pow, bit-zero, hit, of_hit, miss,
  of_covered,
}

pub hits-zero : (m : ℕ) → truthy (bit_and 0 m) ≡ false
hits-zero m = miss 0 m λ i p. cc (bit-zero i)

pub hits-bit_or :
    (a b m : ℕ) → truthy (bit_and (bit_or a b) m) ≡ (truthy (bit_and a m) || truthy (bit_and b m))
hits-bit_or a b m = eq_of_both_true _ _ into back
  where
    into :
        truthy (bit_and (bit_or a b) m) ≡ true
        → (truthy (bit_and a m) || truthy (bit_and b m)) ≡ true
    into h =
        let (i, p, q) = of_hit (bit_or a b) m h in
        ground (arith, bit-bit_or a b i, hit a m i, hit b m i)

    back :
        (truthy (bit_and a m) || truthy (bit_and b m)) ≡ true
        → truthy (bit_and (bit_or a b) m) ≡ true
    back h = elim (Bool-cases (truthy (bit_and a m))) [
      | inl e ↦
          let (i, p, q) = of_hit a m e in hit (bit_or a b) m i (ground (arith, bit-bit_or a b i)) q
      | inr e ↦
          let (i, p, q) = of_hit b m (ground arith) in
          hit (bit_or a b) m i (ground (arith, bit-bit_or a b i)) q
    ]

pub hits-pow : (k m : ℕ) → truthy (bit_and (2 ^ k) m) ≡ bit m k
hits-pow k m = elim (Bool-cases (bit m k)) [
  | inl e ↦ hit (2 ^ k) m k (ground (arith, bit-pow k k)) e ∙ sym e
  | inr e ↦ miss (2 ^ k) m (clear e) ∙ sym e
]
  where
    clear : bit m k ≡ false → (i : ℕ) → bit (2 ^ k) i ≡ true → bit m i ≡ false
    clear e i p = let at : k ≡ i = ground (arith, bit-pow k i) in rw (← at) e

hits_comm : (a m : ℕ) → truthy (bit_and a m) ≡ truthy (bit_and m a)
hits_comm a m = eq_of_both_true _ _ (flip a m) (flip m a)
  where
    flip : (a m : ℕ) → truthy (bit_and a m) ≡ true → truthy (bit_and m a) ≡ true
    flip a m h = let (i, p, q) = of_hit a m h in hit m a i q p

-- A condition on a set of roles with one more.
pub hits-with :
    (a m k : ℕ) → truthy (bit_and a (bit_or m (2 ^ k))) ≡ (truthy (bit_and a m) || bit a k)
hits-with a m k =
    ground
      (arith, hits_comm a (bit_or m (2 ^ k)), hits-bit_or m (2 ^ k) a, hits_comm m a, hits-pow k a)

pub hit_of_covered :
    (a b m : ℕ)
    → truthy (without a b) ≡ false
    → truthy (bit_and a m) ≡ true
    → truthy (bit_and b m) ≡ true
hit_of_covered a b m h k = let (i, p, q) = of_hit a m k in hit b m i (of_covered a b i h p) q

pub zero-hits : (a : ℕ) → truthy (bit_and a 0) ≡ false
zero-hits a = hits_comm a 0 ∙ hits-zero a
