-- ===== src/Services/RoundTrip.antt =====
-- A text that is set through the client, and read again: kvService of sdk/go/services.go, above the
-- client, the executor, the breaker and the mock backend.
use resilix.Prelude.{String, ◌≡◌, refl, ap, ◌∙◌, false, none, some, [], ◌∷◌, arith, eq_refl}
use resilix.Prelude.Int.{Time, Duration, pos, ◌≤ℤ◌}
use resilix.Errors.{ok}
use resilix.Mock
use resilix.Mock.{Mock, Value, sprint}
use resilix.Mock.Injected.{NoError}
use resilix.Mock.Kv.Reads.{gone, set-state, get-set}
use resilix.Contract.{nil, str}
use resilix.Retry.{World}
use resilix.Validation.{validate_key}
use resilix.Services.{Session, send, checked, as_str, ignored}
use resilix.Services.Kv
use resilix.Services.Quiet.{Calm, Quiet, Serves, send-served}

module _ {E : Type 0} (c : Session E) (view : E → Mock) (quiet : Quiet c view)
    (sets : (key : String) (v : Value) (ttl : Duration)
      → Serves c.now view (c.backend.set key v ttl) (λ t m. Mock.Kv.set t key v ttl m))
    (gets : (key : String)
      → Serves c.now view (c.backend.get key) (λ t m. Mock.Kv.get t key m)) where
  read_after_set :
      (s t : Time) (key : String) (v : Value) (ttl : Duration) (m : Mock)
      → NoError "Set" m
      → NoError "Get" m
      → ttl ≤ℤ pos 0
      → (Mock.Kv.get t key (Mock.Kv.set s key v ttl m).1).0 ≡ ok (sprint v)
  read_after_set s t key v ttl m hs hg short =
      let lasts : gone s ttl t ≡ false = ground arith in
      get-set s t key key v ttl m hs hg ∙ rw (eq_refl key, lasts) refl

  -- Set of a key that is not blank, with no time to live, through a client at rest above the mock
  -- returns no error; and Get of the key in the state behind it returns the text of the value,
  -- whatever the time is. (No error is injected.)
  pub get-set_end :
      (key : String) (v : Value) (ttl : Duration) (w : World E)
      → Calm w
      → NoError "Set" (view w.env)
      → NoError "Get" (view w.env)
      → validate_key key ≡ none
      → ttl ≤ℤ pos 0
      → ((Kv.set c key v ttl w).0 ≡ some (ok tt))
        × ((Kv.get c key (Kv.set c key v ttl w).1).0 ≡ some (ok (sprint v)))
  unfolding Kv.set Kv.get checked as_str ignored
  get-set_end key v ttl w calm hs hg valid short =
      let (s, set_served) =
        send-served c view quiet (λ u. nil) (c.backend.set key v ttl)
          (λ t m. Mock.Kv.set t key v ttl m) (sets key v ttl) ignored "SET" "kv" (key ∷ []) w
          calm in
      let (done, calm', stored) =
        set_served tt tt (ap (λ r. r.0) (set-state s key v ttl (view w.env) hs)) refl in
      let w' = (send c "SET" "kv" (key ∷ []) (λ u. nil) (c.backend.set key v ttl) ignored w).1 in
      let (t, get_served) =
        send-served c view quiet (λ x. str x) (c.backend.get key) (λ t m. Mock.Kv.get t key m)
          (gets key) as_str "GET" "kv" (key ∷ []) w' calm' in
      let read : (Mock.Kv.get t key (view w'.env)).0 ≡ ok (sprint v) =
        ap (λ m. (Mock.Kv.get t key m).0) stored
        ∙ read_after_set s t key v ttl (view w.env) hs hg short in
      rw valid (done, (get_served (sprint v) (sprint v) read refl).0)
