-- ===== src/Telemetry/RegistryTests.antt =====
-- A registry that is a dictionary of the names.
use resilix.Prelude.{ℕ, ◌≡◌, refl, String, Option, none, some}
use resilix.Prelude.Int.{ℤ, pos}
use resilix.Dict
use resilix.Dict.{Dict}
use resilix.Telemetry.Registry.{Collector, RegisterError, already_registered, Process, new_metrics}
use resilix.Telemetry.Sharing.{IsRegistry, once_more, state_label, second-shares}

abbrev answer_of :
    Collector → Dict Collector → Option Collector → Option RegisterError × Dict Collector
answer_of c r none = (none, Dict.put r c.name c)
answer_of c r (some x) = (some (already_registered x), r)

abbrev register : Collector → Dict Collector → Option RegisterError × Dict Collector
register c r = answer_of c r (Dict.get r c.name)

abbrev holds : Dict Collector → String → Option Collector
holds r name = Dict.get r name

register-IsRegistry : IsRegistry register holds
register-IsRegistry = record {
  added = λ c r free. rw free refl;
  then_held = λ c r name free. rw free (Dict.get-put r c.name name c);
  refused = λ c x r there. rw there refl;
}

abbrev start : Process (Dict Collector)
start = record { registry = Dict.empty; made = 0; labels = λ i. Dict.empty }

-- The breaker of the first client has opened.
abbrev opened : ℕ → Dict ℤ
opened i = Dict.put (Dict.put Dict.empty "closed" (pos 0)) "open" (pos 1)

second-shares_example :
    ((once_more register holds register-IsRegistry start 9 opened).0
      ≡ (new_metrics register start).0)
    × ((once_more register holds register-IsRegistry start 9 opened).1.registry
        ≡ (new_metrics register start).1.registry)
    × (state_label register holds register-IsRegistry
          (new_metrics register start).0
          (once_more register holds register-IsRegistry start 9 opened).1
          "closed"
        ≡ some (pos 1))
    × (state_label register holds register-IsRegistry
          (new_metrics register start).0
          (once_more register holds register-IsRegistry start 9 opened).1
          "open"
        ≡ some (pos 0))
unfolding Dict.get Dict.lookup Dict.empty
second-shares_example =
    second-shares register holds register-IsRegistry start 9 opened
      (refl, (refl, (refl, (refl, (refl, (refl, (refl, (refl, (refl, tt)))))))))
