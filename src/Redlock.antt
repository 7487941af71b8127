-- ===== src/Redlock.antt =====
-- The distributed lock: sdk/go/lock/redlock.go. A node is the state that a Redis server keeps, and
-- `eval` its Eval; the clock, the wait between two rounds and the random token are arguments. The
-- nodes that a call finds may change in the clock's reading and in the wait, as other clients and
-- the expiry of keys change them. Durations are integers that do not wrap as an int64 does, and the
-- drift, a float64 product in the source, is exact.
pub mod Quorum
pub mod Exclusion
pub mod Holding
pub mod Rollback
mod HoldTests
mod Tests
use resilix.Prelude.{
  ℕ, zero, suc, ◌+◌, ◌/◌, String, Bool, true, false, ◌&&◌, ◌==◌, leb, ltb, Option, none, some, List,
  [], ◌∷◌, length, if◌then◌else◌,
}
use resilix.Prelude.Int.{ℤ, pos, negsuc, Time, Duration, pos_part, ltb_ℤ, ◌+ℤ◌, ◌-ℤ◌}
use resilix.Errors.{Error, Result, ok, err, not_acquired, not_owner}

-- An argument of a script, and what Eval returns (an int64, or a value of another type).
pub data Arg : Type 0 where
  str : String → Arg
  num : ℤ → Arg

pub data Reply : Type 0 where
  int : ℤ → Reply
  other : Reply

-- The three scripts.
pub data Script : Type 0 where
  set_nx_script release_script extend_script : Script

pub record Locker : Type 0 where
  pub quorum : ℕ
  pub retries : ℤ
  pub retry_gap : Duration

-- Of the nodes, `New` needs their number.
unfoldable pub new : ℕ → Locker
new n =
    let q = suc (n / 2) in
    record { quorum = if ltb q 1 then 1 else q; retries = pos 3; retry_gap = pos 200000000 }

unfoldable pub with_retries : ℤ → Locker → Locker
with_retries n l = record l { retries = n }

unfoldable pub with_retry_gap : Duration → Locker → Locker
with_retry_gap d l = record l { retry_gap = d }

-- Division that rounds to zero, by a positive number.
unfoldable pub quotient : ℤ → ℕ → ℤ
quotient (pos n) d = pos (n / d)
quotient (negsuc n) d = pos 0 -ℤ pos (suc n / d)

unfoldable pub drift_for : Duration → Duration
unfolding quotient
drift_for ttl = quotient ttl 100 +ℤ pos 2000000

unfoldable pub is_one : Result Reply → Bool
is_one (ok (int (pos n))) = n == 1
is_one (ok (int (negsuc n))) = false
is_one (ok other) = false
is_one (err e) = false

-- The nodes and what is around them.
pub record World (N E : Type 0) : Type 0 where
  pub nodes : List N
  pub env : E

-- What the lock is given.
pub record Outside (N E : Type 0) : Type 0 where
  pub eval : Script → List String → List Arg → N → Result Reply × N
  pub now : World N E → Time × World N E
  pub wait : Duration → World N E → Option Error × World N E

-- The loop over the nodes: how many of them say yes.
unfoldable pub each_node : {N : Type 0} → (N → Bool × N) → List N → ℕ × List N
each_node f [] = (0, [])
each_node f (n ∷ ns) =
    let (agrees, n') = f n in
    let (count, ns') = each_node f ns in (if agrees then suc count else count, n' ∷ ns')

module _ {N E : Type 0} (o : Outside N E) (key : String) (token : String) where
  -- A script on a node, and whether it has returned 1.
  unfoldable pub says_one : Script → List Arg → N → Bool × N
  unfolding is_one
  says_one script args n =
      let (r, n') = o.eval script (key ∷ []) (str token ∷ args) n in (is_one r, n')

  unfoldable pub set_nx : Duration → N → Bool × N
  unfolding quotient says_one
  set_nx ttl n = says_one set_nx_script (num (quotient ttl 1000000) ∷ []) n

  unfoldable pub release_on_node : N → Bool × N
  unfolding says_one
  release_on_node n = says_one release_script [] n

  unfoldable pub extend_on_node : Duration → N → Bool × N
  unfolding quotient says_one
  extend_on_node ttl n = says_one extend_script (num (quotient ttl 1000000) ∷ []) n

  unfoldable pub on_nodes : (N → Bool × N) → World N E → ℕ × World N E
  unfolding each_node
  on_nodes f w = let (count, ns) = each_node f w.nodes in (count, record w { nodes = ns })

  unfoldable pub try_acquire : Duration → World N E → ℕ × World N E
  unfolding on_nodes
  try_acquire ttl w = on_nodes (λ n. set_nx ttl n) w

  -- The inner `release`.
  unfoldable pub release_nodes : World N E → ℕ × World N E
  unfolding on_nodes
  release_nodes w = on_nodes (λ n. release_on_node n) w

  unfoldable pub release : Locker → World N E → Option Error × World N E
  unfolding release_nodes
  release l w =
      let (released, w') = release_nodes w in
      (if ltb released l.quorum then some not_owner else none, w')

  unfoldable pub extend : Locker → Duration → World N E → Option Error × World N E
  unfolding on_nodes
  extend l ttl w =
      let (extended, w') = on_nodes (λ n. extend_on_node ttl n) w in
      (if ltb extended l.quorum then some not_owner else none, w')

  -- One round of Acquire: whether it has the lock, else with the nodes released.
  unfoldable pub attempt : Locker → Duration → World N E → Bool × World N E
  unfolding try_acquire release_nodes drift_for
  attempt l ttl w =
      let (start, w0) = o.now w in
      let (acquired, w1) = try_acquire ttl w0 in
      let (stop, w2) = o.now w1 in
      let validity = ttl -ℤ (stop -ℤ start) -ℤ drift_for ttl in
      if leb l.quorum acquired && ltb_ℤ (pos 0) validity
      then (true, w2)
      else (false, (release_nodes w2).1)

  -- The wait between two rounds, which the last round leaves out.
  unfoldable pub pause : Locker → ℕ → World N E → Option Error × World N E
  pause l zero w = (none, w)
  pause l (suc left) w = o.wait l.retry_gap w

  unfoldable pub resume :
      (World N E → Result String × World N E) → Option Error × World N E → Result String × World N E
  resume next (none, w) = next w
  resume next (some e, w) = (err e, w)

  -- Out of the loop with the lock, or to the next round.
  unfoldable pub go_on :
      Locker
      → ℕ
      → (World N E → Result String × World N E)
      → Bool × World N E
      → Result String × World N E
  unfolding resume pause
  go_on l left next (true, w) = (ok token, w)
  go_on l left next (false, w) = resume next (pause l left w)

  -- The rounds that are left.
  unfoldable pub rounds : Locker → Duration → ℕ → World N E → Result String × World N E
  unfolding go_on
  rounds l ttl zero w = (err not_acquired, w)
  rounds l ttl (suc left) w = go_on l left (λ w'. rounds l ttl left w') (attempt l ttl w)

-- Acquire, given what `randomToken` returns.
unfoldable pub acquire :
    {N E : Type 0}
    → Outside N E
    → Result String
    → Locker
    → String
    → Duration
    → World N E
    → Result String × World N E
unfolding rounds
acquire o (err e) l key ttl w = (err e, w)
acquire o (ok token) l key ttl w = rounds o key token l ttl (pos_part l.retries) w
