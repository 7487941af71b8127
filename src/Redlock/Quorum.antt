-- ===== src/Redlock/Quorum.antt =====
-- How many nodes can say yes.
use resilix.Prelude.{
  ℕ, suc, ◌+◌, ◌*◌, ◌≡◌, refl, Bool, true, false, List, [], ◌∷◌, length, arith, ◌≤◌, ◌<◌,
  if◌then◌else◌,
}
use resilix.Redlock.{each_node, new}

-- How many of the nodes are held.
unfoldable pub count : {N : Type 0} → (N → Bool) → List N → ℕ
count p [] = 0
count p (n ∷ ns) = let rest = count p ns in if p n then suc rest else rest

-- A majority of the nodes that `new` sees.
pub new-majority : (n : ℕ) → n < 2 * (new n).quorum
unfolding new
new-majority n = ground arith

module _ {N : Type 0} (f : N → Bool × N) (held : N → Bool) where
  pub each_node-length : (ns : List N) → length (each_node f ns).1 ≡ length ns
  unfolding each_node
  each_node-length [] = refl
  each_node-length (n ∷ ns) = ground (arith, each_node-length ns)

  -- Where a held node stays held, at least as many are held behind the loop.
  pub each_node-count :
      ((n : N) → held n ≡ true → held (f n).1 ≡ true)
      → (ns : List N) → count held ns ≤ count held (each_node f ns).1
  unfolding each_node count
  each_node-count keep [] = omega arith
  each_node-count keep (n ∷ ns) = ground (arith, keep n, each_node-count keep ns)

  -- Where a held node says no, those that say yes are among the others.
  pub each_node-yes :
      ((n : N) → held n ≡ true → (f n).0 ≡ false)
      → (ns : List N) → (each_node f ns).0 + count held ns ≤ length ns
  unfolding each_node count
  each_node-yes refuses [] = omega arith
  each_node-yes refuses (n ∷ ns) = ground (arith, refuses n, each_node-yes refuses ns)

  -- Where no node is held behind its turn, none is held behind the loop.
  pub each_node-none :
      ((n : N) → held (f n).1 ≡ false) → (ns : List N) → count held (each_node f ns).1 ≡ 0
  unfolding each_node count
  each_node-none drops [] = refl
  each_node-none drops (n ∷ ns) = ground (arith, drops n, each_node-none drops ns)
