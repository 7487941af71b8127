-- ===== src/Mock/Kv/Refinement/Tests.antt =====
-- A run of commands on keys of the mock backend.
use resilix.Prelude.{◌≡◌, refl, true, none, some, List, [], ◌∷◌, arith}
use resilix.Prelude.Int.{Time, pos, ◌+ℤ◌, ◌-ℤ◌}
use resilix.Errors.{ok, err, key_not_found}
use resilix.Dict
use resilix.Decimal.{format}
use resilix.Mock.{Mock, int, new_mock, set_kv, sprint, expired}
use resilix.Mock.Kv.{new_entry, ttl_of}
use resilix.Mock.Kv.Views.{live_count}
use resilix.Mock.Kv.Refinement.{assign}
use resilix.Mock.Kv.Refinement.Replay.{
  Command, do_get, do_set, do_mget, do_del, do_exists, do_expire, do_ttl, text, done, texts, number,
  flag, left, run, replay, replay_one,
}
use resilix.Mock.Kv.Refinement.Runs.{run-replays}

-- A key with a time to live, which is read before and after its end, and one that is deleted.
abbrev commands : List (Time × Command)
commands =
    (pos 1, do_set "a" (int (pos 7)) (pos 5))
    ∷ (pos 2, do_expire "b" (pos 10))
    ∷ (pos 4, do_mget ("a" ∷ "c" ∷ []))
    ∷ (pos 5, do_ttl "b")
    ∷ (pos 7, do_get "a")
    ∷ (pos 7, do_exists ("a" ∷ "b" ∷ []))
    ∷ (pos 8, do_del ("a" ∷ "b" ∷ []))
    ∷ (pos 8, do_get "b")
    ∷ []

abbrev start : Mock
start = set_kv "b" "2" new_mock

run-replays_example :
    run commands start
    ≡ done (ok tt)
      ∷ flag (ok true)
      ∷ texts (ok (some "7" ∷ none ∷ []))
      ∷ left (ok (pos 7))
      ∷ text (err key_not_found)
      ∷ number (ok 1)
      ∷ number (ok 1)
      ∷ text (err key_not_found)
      ∷ []
unfolding new_mock set_kv Dict.get_or Dict.get Dict.lookup Dict.empty Dict.put Dict.insert sprint
    replay replay_one assign new_entry expired ttl_of live_count ◌+ℤ◌ ◌-ℤ◌ format
run-replays_example = run-replays commands (pos 0) start (λ op. refl) (ground arith)
