-- ===== src/Redlock/Tests.antt =====
-- Runs of the lock on servers that keep one key each.
use resilix.Prelude.{
  ℕ, suc, ◌*◌, ◌≡◌, refl, String, Bool, true, false, Option, none, some, List, [], ◌∷◌, arith,
  str_eq, eq_iff, if◌then◌else◌,
}
use resilix.Prelude.Int.{pos}
use resilix.Errors.{Error, Result, ok, err, not_acquired}
use resilix.Redlock.{
  Arg, str, Reply, int, Script, set_nx_script, release_script, extend_script, World, Outside, new,
  acquire, is_one, set_nx, release_on_node, attempt,
}
use resilix.Redlock.Quorum.{count}
use resilix.Redlock.Exclusion.{Majority, HeldByOther, acquire_excluded}
use resilix.Redlock.Rollback.{Drops, acquire-rolls_back}

-- A server with the value of the key; it keeps no time.
abbrev Server : Type 0
Server = Option String

unfoldable serve : Script → List String → List Arg → Server → Result Reply × Server
serve set_nx_script keys (str t ∷ args) none = (ok (int (pos 1)), some t)
serve release_script keys (str t ∷ args) (some v) =
    if str_eq v t then (ok (int (pos 1)), none) else (ok (int (pos 0)), some v)
serve extend_script keys (str t ∷ args) (some v) =
    if str_eq v t then (ok (int (pos 1)), some v) else (ok (int (pos 0)), some v)
serve script keys args s = (ok (int (pos 0)), s)

-- The clock moves by a millisecond with each reading.
abbrev servers : Outside Server ℕ
servers = record {
  eval = serve;
  now = λ w. (pos (w.env * 1000000), record w { env = suc w.env });
  wait = λ d w. (none, w);
}

abbrev has : String → Server → Bool
has t none = false
has t (some v) = str_eq v t

abbrev taken : World Server ℕ
taken = record { nodes = some "b" ∷ some "b" ∷ none ∷ []; env = 0 }

serve-refused :
    (n : Server) (args : List Arg)
    → has "b" n ≡ true
    → (is_one (serve set_nx_script ("k" ∷ []) (str "a" ∷ args) n).0 ≡ false)
      × (has "b" (serve set_nx_script ("k" ∷ []) (str "a" ∷ args) n).1 ≡ true)
unfolding serve is_one
serve-refused none args e = ground arith
serve-refused (some v) args e = (refl, e)

serve-kept :
    (n : Server)
    → has "b" n ≡ true
    → has "b" (serve release_script ("k" ∷ []) (str "a" ∷ []) n).1 ≡ true
unfolding serve
serve-kept none e = e
serve-kept (some v) e = let (same, _) = eq_iff v "b" in rw (same e) refl

servers-HeldByOther : HeldByOther (has "b") 2 servers "k" "a"
servers-HeldByOther = record {
  set_refused = λ n args e. (serve-refused n args e).0;
  set_kept = λ n args e. (serve-refused n args e).1;
  release_kept = serve-kept;
  now_kept = λ w m. record { most = m.most; enough = m.enough };
  wait_kept = λ d w m. m;
}

serve-drops : (n : Server) → has "a" (serve release_script ("k" ∷ []) (str "a" ∷ []) n).1 ≡ false
unfolding serve
serve-drops none = refl
serve-drops (some v) = ground arith

servers-Drops : Drops (has "a") servers "k" "a"
servers-Drops = record { release_drops = serve-drops; wait_adds_none = λ d w. omega arith }

acquire_excluded_example :
    ((e : Error) × ((acquire servers (ok "a") (new 3) "k" (pos 10000000000) taken).0 ≡ err e))
    × Majority (has "b") 2 (acquire servers (ok "a") (new 3) "k" (pos 10000000000) taken).1
unfolding new count
acquire_excluded_example =
    acquire_excluded (has "b") (new 3) servers "k" "a" servers-HeldByOther (pos 10000000000) taken
      (record { most = omega arith; enough = omega arith })

acquire-rolls_back_example :
    count (has "a") (acquire servers (ok "a") (new 3) "k" (pos 10000000000) taken).1.nodes ≡ 0
unfolding new acquire count attempt set_nx serve release_on_node
acquire-rolls_back_example =
    acquire-rolls_back (has "a") (new 3) servers "k" "a" servers-Drops (pos 10000000000) taken
      not_acquired refl refl
