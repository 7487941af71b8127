-- ===== src/Redlock/Rollback.antt =====
-- What Acquire leaves on the nodes when it returns no token.
use resilix.Prelude.{
  ℕ, zero, suc, ◌≡◌, refl, subst, String, Bool, true, false, Option, none, some, [], ◌∷◌, arith,
  ◌≤◌,
}
use resilix.Prelude.Int.{pos_part, Duration}
use resilix.Errors.{Error, Result, ok, err}
use resilix.Redlock.{
  str, release_script, Locker, World, Outside, release_on_node, on_nodes, says_one, release_nodes,
  try_acquire, attempt, pause, resume, go_on, rounds, acquire,
}
use resilix.Redlock.Quorum.{count, each_node-none}

-- What Redis and the wait do to the token of this call: behind a release script that was run a
-- node does not have it, and no one else writes it.
pub record Drops {N E : Type 0} (mine : N → Bool) (o : Outside N E) (key token : String)
    : Type 0 where
  pub release_drops : (n : N) → mine (o.eval release_script (key ∷ []) (str token ∷ []) n).1 ≡ false
  pub wait_adds_none :
      (d : Duration) (w : World N E) → count mine (o.wait d w).1.nodes ≤ count mine w.nodes

module _ {N E : Type 0} (mine : N → Bool) (l : Locker) (o : Outside N E) (key token : String)
    (h : Drops mine o key token) where
  release_nodes-none : (w : World N E) → count mine (release_nodes o key token w).1.nodes ≡ 0
  unfolding release_nodes on_nodes release_on_node says_one
  release_nodes-none w =
      let f : N → Bool × N = λ n. release_on_node o key token n in
      each_node-none f mine (λ n. h.release_drops n) w.nodes

  attempt-none :
      (ttl : Duration) (w : World N E)
      → (attempt o key token l ttl w).0 ≡ false
      → count mine (attempt o key token l ttl w).1.nodes ≡ 0
  unfolding attempt
  attempt-none ttl w =
      let w1 = (try_acquire o key token ttl (o.now w).1).1 in
      ground (arith, release_nodes-none (o.now w1).1)

  pause-none :
      (left : ℕ) (w : World N E)
      → count mine w.nodes ≡ 0
      → count mine (pause o key token l left w).1.nodes ≡ 0
  unfolding pause
  pause-none zero w e = e
  pause-none (suc left) w e = omega (arith, h.wait_adds_none l.retry_gap w)

  -- A result that is no token leaves the token on no node.
  abbrev Clean : Result String → World N E → Type 0
  Clean (ok t) w = Unit {0}
  Clean (err e) w = count mine w.nodes ≡ 0

  resume-Clean :
      (next : World N E → Result String × World N E) (p : Option Error × World N E)
      → count mine p.1.nodes ≡ 0
      → ((w : World N E) → count mine w.nodes ≡ 0 → Clean (next w).0 (next w).1)
      → Clean (resume o key token next p).0 (resume o key token next p).1
  unfolding resume
  resume-Clean next (none, w) z k = k w z
  resume-Clean next (some e, w) z k = z

  go_on-Clean :
      (left : ℕ) (next : World N E → Result String × World N E) (p : Bool × World N E)
      → (p.0 ≡ false → count mine p.1.nodes ≡ 0)
      → ((w : World N E) → count mine w.nodes ≡ 0 → Clean (next w).0 (next w).1)
      → Clean (go_on o key token l left next p).0 (go_on o key token l left next p).1
  unfolding go_on
  go_on-Clean left next (true, w) z k = tt
  go_on-Clean left next (false, w) z k =
      resume-Clean next (pause o key token l left w) (pause-none left w (z refl)) k

  rounds-Clean :
      (ttl : Duration) (left : ℕ) (w : World N E)
      → count mine w.nodes ≡ 0
      → Clean (rounds o key token l ttl left w).0 (rounds o key token l ttl left w).1
  unfolding rounds
  rounds-Clean ttl zero w z = z
  rounds-Clean ttl (suc left) w z =
      go_on-Clean left (λ w'. rounds o key token l ttl left w') (attempt o key token l ttl w)
        (attempt-none ttl w) (rounds-Clean ttl left)

  -- Where Acquire returns an error, no node has its token: every round that fails is rolled back,
  -- as long as each node runs the release script. (No node has the token before, and no one else
  -- writes it.)
  pub acquire-rolls_back :
      (ttl : Duration) (w : World N E) (e : Error)
      → count mine w.nodes ≡ 0
      → (acquire o (ok token) l key ttl w).0 ≡ err e
      → count mine (acquire o (ok token) l key ttl w).1.nodes ≡ 0
  unfolding acquire
  acquire-rolls_back ttl w e z failed =
      subst (λ r. Clean r (acquire o (ok token) l key ttl w).1) failed
        (rounds-Clean ttl (pos_part l.retries) w z)
