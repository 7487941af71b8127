-- ===== src/Redlock/Holding.antt =====
-- What a token that Acquire returns stands for.
use resilix.Prelude.{
  ℕ, zero, suc, ◌≡◌, refl, sym, subst, if◌then◌else◌, String, Bool, true, false, Option, none, some,
  List, [], ◌∷◌, arith, ◌≤◌, ◌*◌, ◌/◌, leb, ◌&&◌,
}
use resilix.Prelude.Int.{pos, pos_part, Time, ◌<ℤ◌, ◌≤ℤ◌, ◌+ℤ◌, ◌-ℤ◌, ltb_ℤ, +ℤ_parts, -ℤ_parts}
use resilix.Errors.{Error, Result, ok, err}
use resilix.Redlock.{
  str, num, set_nx_script, drift_for, quotient, each_node, release_nodes, Locker, World, Outside,
  is_one, set_nx, on_nodes, says_one, try_acquire, attempt, pause, resume, go_on, rounds, acquire,
}
use resilix.Redlock.Quorum.{count}

-- The clock of each node has come to a time.
abbrev pub AllPast : {N : Type 0} → (N → Time) → Time → List N → Type 0
AllPast clock t [] = Unit {0}
AllPast clock t (n ∷ ns) = (t ≤ℤ clock n) × AllPast clock t ns

-- What Redis and the clocks do, where `holds t n` is that the key of the node has the token of this
-- call until `t` at least, if nothing but its expiry takes it away, and `clock n` is the time of the
-- node. Where the script with SET NX PX returns 1, the key has the token for the milliseconds that
-- are given, less the drift of 1% that the code allows for. Behind a reading of the clock the time of
-- each node is not before the one that was read, and a reading takes no token whose time is not over.
pub record Takes {N E : Type 0} (holds : Time → N → Bool) (clock : N → Time) (o : Outside N E)
    (key token : String) : Type 0 where
  pub set_takes :
      (n : N) (ms : ℕ) (t : Time)
      → is_one (o.eval set_nx_script (key ∷ []) (str token ∷ (num (pos ms) ∷ [])) n).0 ≡ true
      → t <ℤ clock n +ℤ pos (ms * 990000)
      → holds t (o.eval set_nx_script (key ∷ []) (str token ∷ (num (pos ms) ∷ [])) n).1 ≡ true
  pub now_past : (w : World N E) → AllPast clock (o.now w).0 (o.now w).1.nodes
  pub now_keeps :
      (w : World N E)
      → count (holds (o.now w).0) w.nodes ≤ count (holds (o.now w).0) (o.now w).1.nodes

-- The validity that is left covers the time until the token expires on a node that has answered.
valid-lasts :
    (ttl : ℕ) (start stop clock : Time)
    → pos 0 <ℤ pos ttl -ℤ (stop -ℤ start) -ℤ drift_for (pos ttl)
    → start ≤ℤ clock
    → stop <ℤ clock +ℤ pos (ttl / 1000000 * 990000)
unfolding drift_for quotient
valid-lasts ttl start stop clock valid past =
    let spent = stop -ℤ start in
    let drift = pos (ttl / 100) +ℤ pos 2000000 in
    let lasting = pos (ttl / 1000000 * 990000) in
    omega (
      arith,
      -ℤ_parts stop start,
      -ℤ_parts (pos ttl) spent,
      -ℤ_parts (pos ttl -ℤ spent) drift,
      +ℤ_parts (pos (ttl / 100)) (pos 2000000),
      +ℤ_parts clock lasting,
    )

if-true :
    {W : Type 0} (b : Bool) (x y : W)
    → (if◌then◌else◌ {A = Bool × W} b (true, x) (false, y)).0 ≡ true
    → (b ≡ true) × ((if◌then◌else◌ {A = Bool × W} b (true, x) (false, y)).1 ≡ x)
if-true true x y e = (refl, refl)
if-true false x y e = ground (arith, e)

module _ {N E : Type 0} (holds : Time → N → Bool) (clock : N → Time) (l : Locker) (o : Outside N E)
    (key token : String) (h : Takes holds clock o key token) (ttl : ℕ) where
  -- The nodes that have taken the token keep it for the rest of a validity that is positive.
  tried-holds :
      (start stop : Time)
      → pos 0 <ℤ pos ttl -ℤ (stop -ℤ start) -ℤ drift_for (pos ttl)
      → (ns : List N) → AllPast clock start ns
      → (each_node (λ n. set_nx o key token (pos ttl) n) ns).0
        ≤ count (holds stop) (each_node (λ n. set_nx o key token (pos ttl) n) ns).1
  unfolding each_node count set_nx says_one quotient
  tried-holds start stop valid [] past = omega arith
  tried-holds start stop valid (n ∷ ns) (here, past) = ground (
    arith,
    h.set_takes n (ttl / 1000000) stop,
    valid-lasts ttl start stop (clock n) valid here,
    tried-holds start stop valid ns past,
  )

  -- The state behind a reading of the clock at which a quorum still has the token.
  abbrev pub Held : World N E → Type 0
  Held w = (w1 : World N E) × (w ≡ (o.now w1).1) × (l.quorum ≤ count (holds (o.now w1).0) w.nodes)

  attempt-Held :
      (w : World N E)
      → (attempt o key token l (pos ttl) w).0 ≡ true
      → Held (attempt o key token l (pos ttl) w).1
  unfolding attempt try_acquire on_nodes
  attempt-Held w e =
      let (start, w0) = o.now w in
      let (acquired, w1) = try_acquire o key token (pos ttl) w0 in
      let (stop, w2) = o.now w1 in
      let validity = pos ttl -ℤ (stop -ℤ start) -ℤ drift_for (pos ttl) in
      let enough = leb l.quorum acquired && ltb_ℤ (pos 0) validity in
      let (both, same) = if-true enough w2 (release_nodes o key token w2).1 e in
      let most : l.quorum ≤ acquired = ground (arith, both) in
      let valid : pos 0 <ℤ validity = ground (arith, both) in
      let taken : acquired ≤ count (holds stop) w1.nodes =
        tried-holds start stop valid w0.nodes (h.now_past w) in
      let kept = h.now_keeps w1 in
      (
        w1,
        same,
        subst (λ (u : World N E). l.quorum ≤ count (holds stop) u.nodes) (sym same)
            (omega (arith, most, taken, kept)),
      )

  -- What a result says of the nodes behind it.
  abbrev Holds : Result String → World N E → Type 0
  Holds (ok t) w = (t ≡ token) × Held w
  Holds (err e) w = Unit {0}

  resume-Holds :
      (next : World N E → Result String × World N E) (p : Option Error × World N E)
      → ((w : World N E) → Holds (next w).0 (next w).1)
      → Holds (resume o key token next p).0 (resume o key token next p).1
  unfolding resume
  resume-Holds next (none, w) k = k w
  resume-Holds next (some e, w) k = tt

  go_on-Holds :
      (left : ℕ) (next : World N E → Result String × World N E) (p : Bool × World N E)
      → (p.0 ≡ true → Held p.1)
      → ((w : World N E) → Holds (next w).0 (next w).1)
      → Holds (go_on o key token l left next p).0 (go_on o key token l left next p).1
  unfolding go_on
  go_on-Holds left next (true, w) a k = (refl, a refl)
  go_on-Holds left next (false, w) a k = resume-Holds next (pause o key token l left w) k

  rounds-Holds :
      (left : ℕ) (w : World N E)
      → Holds (rounds o key token l (pos ttl) left w).0 (rounds o key token l (pos ttl) left w).1
  unfolding rounds
  rounds-Holds zero w = tt
  rounds-Holds (suc left) w =
      go_on-Holds left (λ w'. rounds o key token l (pos ttl) left w')
        (attempt o key token l (pos ttl) w) (attempt-Held w) (rounds-Holds left)

  -- Where Acquire returns a token, it is the one it drew, and at the last reading of its clock at
  -- least a quorum of the nodes still has it: none of these has expired by then. (The time to live is
  -- not negative, the time of a node does not lag behind the clock, a node keeps a key for 99% at
  -- least of the milliseconds that it was given, as the drift in the code assumes, and nothing but
  -- its expiry takes the token.)
  pub acquire-holds :
      (w : World N E) (t : String)
      → (acquire o (ok token) l key (pos ttl) w).0 ≡ ok t
      → (t ≡ token) × Held (acquire o (ok token) l key (pos ttl) w).1
  unfolding acquire
  acquire-holds w t e =
      subst (λ r. Holds r (acquire o (ok token) l key (pos ttl) w).1) e
        (rounds-Holds (pos_part l.retries) w)
