-- ===== src/Telemetry/Gauges.antt =====
-- What the gauges of sdk/go/internal/telemetry/recorder.go show.
use resilix.Prelude.{
  String, ◌≡◌, refl, true, ◌||◌, Bool-cases, inl, inr, some, List, [], ◌∷◌, arith, str_eq,
  if◌then◌else◌, ◌∙◌,
}
use resilix.Prelude.Int.{ℤ, pos, Duration}
use resilix.Dict
use resilix.Breaker.{State, closed, open_, half_open}
use resilix.Telemetry.{Recorder, label, new, record_breaker_state}

-- The states that are recorded, one behind the other.
unfoldable pub record_all : List State → Recorder → Recorder
record_all [] r = r
record_all (s ∷ ss) r = record_all ss (record_breaker_state s r)

unfoldable pub last_of : State → List State → State
last_of s [] = s
last_of s (t ∷ ts) = last_of t ts

-- The gauge has one for the state and zero for the two others.
abbrev pub Shows : State → Recorder → Type 0
Shows s r =
    (t : State)
    → Dict.get r.breaker_state (label t)
      ≡ some (if str_eq (label s) (label t) then pos 1 else pos 0)

new-Shows : (d : Duration) → Shows closed (new d)
unfolding new label Dict.put Dict.get Dict.insert Dict.lookup Dict.empty
new-Shows d closed = refl
new-Shows d open_ = refl
new-Shows d half_open = refl

abbrev zeros : Dict.Dict ℤ → Dict.Dict ℤ
zeros d = Dict.put (Dict.put (Dict.put d "closed" (pos 0)) "open" (pos 0)) "half_open" (pos 0)

zeros-at :
    (d : Dict.Dict ℤ) (k : String)
    → (str_eq "half_open" k || (str_eq "open" k || str_eq "closed" k)) ≡ true
    → Dict.get (zeros d) k ≡ some (pos 0)
zeros-at d k h =
    let d1 = Dict.put d "closed" (pos 0) in
    let d2 = Dict.put d1 "open" (pos 0) in
    ground (
      arith,
      h,
      Dict.get-put d2 "half_open" k (pos 0),
      Dict.get-put d1 "open" k (pos 0),
      Dict.get-put d "closed" k (pos 0),
    )

zeros-get : (d : Dict.Dict ℤ) (t : State) → Dict.get (zeros d) (label t) ≡ some (pos 0)
unfolding label
zeros-get d closed = zeros-at d "closed" refl
zeros-get d open_ = zeros-at d "open" refl
zeros-get d half_open = zeros-at d "half_open" refl

record_breaker_state-Shows : (s : State) (r : Recorder) → Shows s (record_breaker_state s r)
unfolding record_breaker_state
record_breaker_state-Shows s r t =
    Dict.get-put (zeros r.breaker_state) (label s) (label t) (pos 1)
    ∙ rw (zeros-get r.breaker_state t)
        (elim (Bool-cases (str_eq (label s) (label t))) [ inl e ↦ rw e refl | inr e ↦ rw e refl ])

record_all-Shows :
    (s : State) (ss : List State) (r : Recorder)
    → Shows s r
    → Shows (last_of s ss) (record_all ss r)
unfolding record_all last_of
record_all-Shows s [] r h = h
record_all-Shows s (t ∷ ts) r h =
    record_all-Shows t ts (record_breaker_state t r) (record_breaker_state-Shows t r)

-- From its making on the gauge of the breaker's state has one for the state that was recorded last,
-- or for the closed state, and zero for the two others.
pub new-Shows_last :
    (d : Duration) (ss : List State) → Shows (last_of closed ss) (record_all ss (new d))
new-Shows_last d ss = record_all-Shows closed ss (new d) (new-Shows d)
