-- ===== src/Mock/Tests.antt =====
-- Runs of the mock backend.
use resilix.Prelude.{◌++◌, ◌≡◌, refl, true, none, [], ◌∷◌, arith}
use resilix.Prelude.Int.{pos, negsuc}
use resilix.Errors.{ok}
use resilix.Dict
use resilix.Dict.{Dict}
use resilix.Mock.{Mock, text, new_mock, set_kv, push_list, add_set, add_all, sprint}
use resilix.Mock.Lists.{lpush, lrange}
use resilix.Mock.Lists.Deque.{lrange-lpush}
use resilix.Mock.PubSub.{subscribe, close}
use resilix.Mock.PubSub.Closing.{close-subscribe}
use resilix.Mock.Stream.{group_at, xread_group, stream_at, answer}
use resilix.Mock.Stream.Reading.{news, xread_group-again}

-- Keys "a" and "b", a list "q", a set "s".
abbrev filled : Mock
filled =
    add_set "s" ("x" ∷ "y" ∷ [])
      (push_list "q" ("1" ∷ []) (set_kv "b" "2" (set_kv "a" "1" new_mock)))

lrange-lpush_example :
    (lrange "q" (pos 0) (negsuc 0) (lpush "q" (text "2" ∷ text "3" ∷ []) filled).1).0
    ≡ ok ("2" ∷ "3" ∷ "1" ∷ [])
unfolding new_mock set_kv add_set push_list add_all Dict.get_or Dict.get Dict.lookup Dict.empty
    Dict.put Dict.insert sprint
lrange-lpush_example = lrange-lpush "q" (text "2" ∷ text "3" ∷ []) filled (refl, refl) (refl, refl)

close-subscribe_example : close (subscribe ("c" ∷ []) new_mock).1 ≡ none
unfolding new_mock Dict.empty Dict.get_or Dict.get Dict.lookup
close-subscribe_example = close-subscribe "c" [] new_mock (refl, refl)

-- A stream with one entry.
abbrev streamed : Mock
streamed = record new_mock {
  streams = Dict.put Dict.empty "s" (record { id = "1-0"; values = Dict.empty } ∷ []);
}

xread_group-again_example :
    ((xread_group (news "g" (pos 0) "s") streamed).0
      ≡ ok (answer "s" true (stream_at streamed "s") ++ []))
    × ((xread_group (news "g" (pos 0) "s") (xread_group (news "g" (pos 0) "s") streamed).1).0
        ≡ (xread_group (news "g" (pos 0) "s") streamed).0)
unfolding new_mock Dict.empty Dict.get_or Dict.get Dict.lookup Dict.put group_at
xread_group-again_example = xread_group-again "g" (pos 0) "s" streamed (omega arith) (refl, refl)
