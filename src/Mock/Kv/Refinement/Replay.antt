-- ===== src/Mock/Kv/Refinement/Replay.antt =====
-- Runs of the commands on keys, of the mock and of the store.
use resilix.Prelude.{ℕ, ◌+◌, String, Bool, Option, none, some, List, [], ◌∷◌, map}
use resilix.Prelude.Int.{ℤ, Time, Duration, ◌≤ℤ◌, ◌+ℤ◌, inc64, dec64}
use resilix.Errors.{Result, ok}
use resilix.Decimal.{format}
use resilix.Mock.{Mock, KvEntry, Value}
use resilix.Mock.Kv.{
  get, set, mget, del, exists, expire, ttl, incr, decr, new_entry, ttl_of, number_in,
}
use resilix.Mock.Kv.Views.{fresh, value_of, is_some, live_count}
use resilix.Mock.Kv.Reads.{reading}
use resilix.Mock.Kv.Refinement.{Store, assign}

pub data Command : Type 0 where
  do_get : String → Command
  do_set : String → Value → Duration → Command
  do_mget : List String → Command
  do_del : List String → Command
  do_exists : List String → Command
  do_expire : String → Duration → Command
  do_ttl : String → Command
  do_incr : String → Command
  do_decr : String → Command

pub data Answer : Type 0 where
  text : Result String → Answer
  done : Result (Unit {0}) → Answer
  texts : Result (List (Option String)) → Answer
  number : Result ℕ → Answer
  flag : Result Bool → Answer
  left : Result Duration → Answer
  count : Result ℤ → Answer

abbrev answered : {A : Type 0} → (Result A → Answer) → Result A × Mock → Answer × Mock
answered f (r, m) = (f r, m)

-- A command of the mock at a time.
unfoldable pub perform : Time → Command → Mock → Answer × Mock
perform now (do_get k) m = answered (λ r. text r) (get now k m)
perform now (do_set k v d) m = answered (λ r. done r) (set now k v d m)
perform now (do_mget ks) m = answered (λ r. texts r) (mget now ks m)
perform now (do_del ks) m = answered (λ r. number r) (del now ks m)
perform now (do_exists ks) m = answered (λ r. number r) (exists now ks m)
perform now (do_expire k d) m = answered (λ r. flag r) (expire now k d m)
perform now (do_ttl k) m = answered (λ r. left r) (ttl now k m)
perform now (do_incr k) m = answered (λ r. count r) (incr now k m)
perform now (do_decr k) m = answered (λ r. count r) (decr now k m)

-- The same on the store, where nothing but the written key changes.
unfoldable pub erase_each : Time → List String → Store → ℕ × Store
erase_each now [] s = (0, s)
erase_each now (k ∷ ks) s =
    let (n, s') = erase_each now ks (assign s k none) in
    (is_some (value_of (fresh now (s k))) + n, s')

unfoldable pub extend_entry : Time → String → Duration → Option KvEntry → Store → Answer × Store
extend_entry now k d none s = (flag (ok Bool.false), s)
extend_entry now k d (some e) s =
    (flag (ok Bool.true), assign s k (some (record e { expiry = some (now +ℤ d) })))

unfoldable pub step_by : (ℤ → ℤ) → Time → String → Store → Answer × Store
step_by step now k s =
    let n = step (number_in (value_of (fresh now (s k)))) in
    (count (ok n), assign s k (some (record { value = format n; expiry = none })))

unfoldable pub replay_one : Time → Command → Store → Answer × Store
unfolding erase_each extend_entry step_by
replay_one now (do_get k) s = (text (reading (value_of (fresh now (s k)))), s)
replay_one now (do_set k v d) s = (done (ok tt), assign s k (some (new_entry now v d)))
replay_one now (do_mget ks) s = (texts (ok (map (λ k. value_of (fresh now (s k))) ks)), s)
replay_one now (do_del ks) s = let (n, s') = erase_each now ks s in (number (ok n), s')
replay_one now (do_exists ks) s = (number (ok (live_count (λ k. value_of (fresh now (s k))) ks)), s)
replay_one now (do_expire k d) s = extend_entry now k d (fresh now (s k)) s
replay_one now (do_ttl k) s = (left (ok (ttl_of now (fresh now (s k)))), s)
replay_one now (do_incr k) s = step_by inc64 now k s
replay_one now (do_decr k) s = step_by dec64 now k s

-- The answers to commands at their times, one behind the other.
unfoldable pub run : List (Time × Command) → Mock → List Answer
unfolding perform
run [] m = []
run ((now, c) ∷ cs) m = let (a, m') = perform now c m in a ∷ run cs m'

unfoldable pub replay : List (Time × Command) → Store → List Answer
unfolding replay_one
replay [] s = []
replay ((now, c) ∷ cs) s = let (a, s') = replay_one now c s in a ∷ replay cs s'

-- The clock does not go back, from a time on.
abbrev pub Forward : Time → List (Time × Command) → Type 0
Forward from [] = Unit {0}
Forward from ((now, c) ∷ cs) = (from ≤ℤ now) × Forward now cs
