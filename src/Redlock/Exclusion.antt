-- ===== src/Redlock/Exclusion.antt =====
-- Whom Acquire gives the lock.
use resilix.Prelude.{
  ℕ, zero, suc, ◌*◌, ◌≡◌, refl, String, Bool, true, false, Option, none, some, List, [], ◌∷◌,
  length, arith, leb, ◌≤◌, ◌<◌,
}
use resilix.Prelude.Int.{pos_part, Duration}
use resilix.Errors.{Error, Result, ok, err, not_acquired}
use resilix.Redlock.{
  Arg, str, set_nx_script, release_script, Locker, World, Outside, is_one, set_nx, release_on_node,
  on_nodes, says_one, try_acquire, release_nodes, attempt, pause, resume, rounds, acquire,
}
use resilix.Redlock.Quorum.{count, each_node-length, each_node-count, each_node-yes}

module _ {N E : Type 0} (held : N → Bool) (q : ℕ) where
  -- A majority of the nodes is held.
  pub record Majority (w : World N E) : Type 0 where
    pub most : length w.nodes < 2 * q
    pub enough : q ≤ count held w.nodes

  -- What Redis and the clock do to nodes on which the key has another's value: SET NX refuses and
  -- keeps it, the release script keeps it, and neither the reading of the clock nor the wait takes
  -- the majority away.
  pub record HeldByOther (o : Outside N E) (key token : String) : Type 0 where
    pub set_refused :
        (n : N) (args : List Arg)
        → held n ≡ true
        → is_one (o.eval set_nx_script (key ∷ []) (str token ∷ args) n).0 ≡ false
    pub set_kept :
        (n : N) (args : List Arg)
        → held n ≡ true
        → held (o.eval set_nx_script (key ∷ []) (str token ∷ args) n).1 ≡ true
    pub release_kept :
        (n : N)
        → held n ≡ true
        → held (o.eval release_script (key ∷ []) (str token ∷ []) n).1 ≡ true
    pub now_kept : (w : World N E) → Majority w → Majority (o.now w).1
    pub wait_kept : (d : Duration) (w : World N E) → Majority w → Majority (o.wait d w).1

pair_eta : {A B : Type 0} (p : A × B) → p ≡ (p.0, p.1)
pair_eta p = refl

module _ {N E : Type 0} (held : N → Bool) (l : Locker) (o : Outside N E) (key token : String)
    (h : HeldByOther held l.quorum o key token) where
  try_acquire-Majority :
      (ttl : Duration) (w : World N E)
      → Majority held l.quorum w
      → Majority held l.quorum (try_acquire o key token ttl w).1
        × ((try_acquire o key token ttl w).0 < l.quorum)
  unfolding try_acquire on_nodes set_nx says_one
  try_acquire-Majority ttl w m =
      let f : N → Bool × N = λ n. set_nx o key token ttl n in
      let same = each_node-length f held w.nodes in
      let more = each_node-count f held (λ n e. h.set_kept n _ e) w.nodes in
      let few = each_node-yes f held (λ n e. h.set_refused n _ e) w.nodes in
      (
        record { most = omega (arith, m.most, same); enough = omega (arith, m.enough, more) },
        omega (arith, m.most, m.enough, few),
      )

  release_nodes-Majority :
      (w : World N E)
      → Majority held l.quorum w
      → Majority held l.quorum (release_nodes o key token w).1
  unfolding release_nodes on_nodes release_on_node says_one
  release_nodes-Majority w m =
      let f : N → Bool × N = λ n. release_on_node o key token n in
      let same = each_node-length f held w.nodes in
      let more = each_node-count f held (λ n e. h.release_kept n e) w.nodes in
      record { most = omega (arith, m.most, same); enough = omega (arith, m.enough, more) }

  pause-Majority :
      (left : ℕ) (w : World N E)
      → Majority held l.quorum w
      → Majority held l.quorum (pause o key token l left w).1
  unfolding pause
  pause-Majority zero w m = m
  pause-Majority (suc left) w m = h.wait_kept l.retry_gap w m

  resume-Majority :
      (next : World N E → Result String × World N E) (p : Option Error × World N E)
      → Majority held l.quorum p.1
      → ((w : World N E)
          → Majority held l.quorum w
          → ((e : Error) × ((next w).0 ≡ err e)) × Majority held l.quorum (next w).1)
      → ((e : Error) × ((resume o key token next p).0 ≡ err e))
        × Majority held l.quorum (resume o key token next p).1
  unfolding resume
  resume-Majority next (none, w) m k = k w m
  resume-Majority next (some e, w) m k = ((e, refl), m)

  attempt-Majority :
      (ttl : Duration) (w : World N E)
      → Majority held l.quorum w
      → ((attempt o key token l ttl w).0 ≡ false)
        × Majority held l.quorum (attempt o key token l ttl w).1
  unfolding attempt
  attempt-Majority ttl w m =
      let w0 = (o.now w).1 in
      let (m1, few) = try_acquire-Majority ttl w0 (h.now_kept w m) in
      let w1 = (try_acquire o key token ttl w0).1 in
      let m3 = release_nodes-Majority (o.now w1).1 (h.now_kept w1 m1) in
      let short : leb l.quorum (try_acquire o key token ttl w0).0 ≡ false = ground (arith, few) in
      rw short (refl, m3)

  rounds-Majority :
      (ttl : Duration) (left : ℕ) (w : World N E)
      → Majority held l.quorum w
      → ((e : Error) × ((rounds o key token l ttl left w).0 ≡ err e))
        × Majority held l.quorum (rounds o key token l ttl left w).1
  unfolding rounds
  rounds-Majority ttl zero w m = ((not_acquired, refl), m)
  rounds-Majority ttl (suc left) w m =
      let (failed, m1) = attempt-Majority ttl w m in
      let w1 = (attempt o key token l ttl w).1 in
      rw (pair_eta (attempt o key token l ttl w), failed)
        (resume-Majority (λ w'. rounds o key token l ttl left w') (pause o key token l left w1)
          (pause-Majority left w1 m1) (rounds-Majority ttl left))

  -- While a majority of the nodes keeps the key for another, Acquire returns an error and no token,
  -- however often it tries and whatever the clock reads, and it leaves that majority as it was.
  pub acquire_excluded :
      (ttl : Duration) (w : World N E)
      → Majority held l.quorum w
      → ((e : Error) × ((acquire o (ok token) l key ttl w).0 ≡ err e))
        × Majority held l.quorum (acquire o (ok token) l key ttl w).1
  unfolding acquire
  acquire_excluded ttl w m = rounds-Majority ttl (pos_part l.retries) w m
