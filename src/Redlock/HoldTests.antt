-- ===== src/Redlock/HoldTests.antt =====
-- A run of the lock on servers that keep time and let a key expire.
use resilix.Prelude.{
  ℕ, suc, ◌+◌, ◌*◌, ◌≡◌, refl, String, Bool, true, false, ◌&&◌, none, List, [], ◌∷◌, arith, str_eq,
  leb,
}
use resilix.Prelude.Int.{pos, Time, ltb_ℤ, ◌<ℤ◌, ◌+ℤ◌, ◌-ℤ◌, +ℤ_parts}
use resilix.Errors.{Result, ok}
use resilix.Redlock.{
  Arg, str, num, Reply, int, Script, set_nx_script, release_script, World, Outside, new, acquire,
  is_one, set_nx, release_on_node, attempt,
}
use resilix.Redlock.Quorum.{count}
use resilix.Redlock.Holding.{Takes, AllPast, Held, acquire-holds}

-- The server's clock, and the value of the key with the time at which it expires.
record Server : Type 0 where
  clock : ℕ
  value : String
  deadline : ℕ

-- SET NX PX of a key whose time is over, or not, and the release by its owner, or not.
abbrev set_if : Bool → String → ℕ → Server → Result Reply × Server
set_if true t ms s = (ok (int (pos 1)), record s { value = t; deadline = s.clock + ms * 1000000 })
set_if false t ms s = (ok (int (pos 0)), s)

abbrev drop_if : Bool → Server → Result Reply × Server
drop_if true s = (ok (int (pos 1)), record s { deadline = 0 })
drop_if false s = (ok (int (pos 0)), s)

unfoldable serve : Script → List String → List Arg → Server → Result Reply × Server
serve set_nx_script keys (str t ∷ (num (pos ms) ∷ [])) s = set_if (leb s.deadline s.clock) t ms s
serve release_script keys (str t ∷ args) s = drop_if (str_eq s.value t) s
serve script keys args s = (ok (int (pos 0)), s)

abbrev at_time : ℕ → List Server → List Server
at_time t [] = []
at_time t (s ∷ ss) = record s { clock = t } ∷ at_time t ss

-- Each reading of the clock is a millisecond later, on the servers too.
abbrev servers : Outside Server ℕ
servers = record {
  eval = serve;
  now = λ w. (
    pos (w.env * 1000000),
    record { nodes = at_time (w.env * 1000000) w.nodes; env = suc w.env },
  );
  wait = λ d w. (none, w);
}

abbrev holds : Time → Server → Bool
holds t s = str_eq s.value "a" && ltb_ℤ t (pos s.deadline)

abbrev clock : Server → Time
clock s = pos s.clock

-- The key of the first server has an owner for ten seconds more, that of the second has expired.
abbrev free : World Server ℕ
free = record {
  nodes =
      record { clock = 0; value = "b"; deadline = 20000000000 }
      ∷ record { clock = 0; value = "b"; deadline = 9000000000 }
      ∷ record { clock = 0; value = ""; deadline = 0 }
      ∷ [];
  env = 10000;
}

at_time-AllPast : (t : ℕ) (ss : List Server) → AllPast clock (pos t) (at_time t ss)
at_time-AllPast t [] = tt
at_time-AllPast t (s ∷ ss) = (omega arith, at_time-AllPast t ss)

count-at_time :
    (r : Time) (t : ℕ) (ss : List Server) → count (holds r) (at_time t ss) ≡ count (holds r) ss
unfolding count
count-at_time r t [] = refl
count-at_time r t (s ∷ ss) = rw (count-at_time r t ss) refl

set_if-takes :
    (b : Bool) (s : Server) (ms : ℕ) (t : Time)
    → is_one (set_if b "a" ms s).0 ≡ true
    → t <ℤ clock s +ℤ pos (ms * 990000)
    → holds t (set_if b "a" ms s).1 ≡ true
unfolding is_one
set_if-takes true s ms t e late = ground (arith, late, +ℤ_parts (clock s) (pos (ms * 990000)))
set_if-takes false s ms t e late = ground (arith, e)

serve-takes :
    (s : Server) (ms : ℕ) (t : Time)
    → is_one (serve set_nx_script ("k" ∷ []) (str "a" ∷ (num (pos ms) ∷ [])) s).0 ≡ true
    → t <ℤ clock s +ℤ pos (ms * 990000)
    → holds t (serve set_nx_script ("k" ∷ []) (str "a" ∷ (num (pos ms) ∷ [])) s).1 ≡ true
unfolding serve
serve-takes s ms t e late = set_if-takes (leb s.deadline s.clock) s ms t e late

servers-Takes : Takes holds clock servers "k" "a"
servers-Takes = record {
  set_takes = serve-takes;
  now_past = λ w. at_time-AllPast (w.env * 1000000) w.nodes;
  now_keeps =
      λ w. rw (count-at_time (pos (w.env * 1000000)) (w.env * 1000000) w.nodes) (omega arith);
}

acquire-holds_example :
    (◌≡◌ {A = String} "a" "a")
    × Held holds clock
        (new 3)
        servers
        "k"
        "a"
        servers-Takes
        10000000000
        (acquire servers (ok "a") (new 3) "k" (pos 10000000000) free).1
unfolding new acquire count attempt set_nx serve release_on_node ◌-ℤ◌ ◌+ℤ◌
acquire-holds_example =
    acquire-holds holds clock (new 3) servers "k" "a" servers-Takes 10000000000 free "a" refl
