-- ===== src/Driver/Idle.antt =====
-- A consumer of a stream in which nothing new is written: XReadGroup of
-- sdk/go/internal/driver/goredis/driver.go below ReadGroup of the client.
use resilix.Prelude.{ℕ, zero, suc, ◌+◌, ◌++◌, ◌≡◌, refl, ap, ◌∙◌, true, false, none, some, arith}
use resilix.Prelude.Int.{pos, Time}
use resilix.Errors.{Error, Result, ok, err, operation, key_not_found, is_redis_nil}
use resilix.Breaker.{Breaker, closed, open_, record_failure}
use resilix.Breaker.Invariant.{IsValid, record_failure-IsValid}
use resilix.Breaker.Trip.{record_failure_below, record_failure_last}
use resilix.Validation.{validate_string_slice}
use resilix.Mock.Stream.{StreamReadRequest}
use resilix.Client.{Operation}
use resilix.Retry.{World, fail}
use resilix.Contract.{responses}
use resilix.Services.{as_responses, Session, checked, caller}
use resilix.Services.Messages.{read_group}
use resilix.Services.Quiet.{Calm, Quiet}
use resilix.Services.Permanent.{begun, failed, send-permanent}
use resilix.Driver.{answered, to_contract_streams}
use resilix.Driver.Redis.{UniversalClient, XReadGroupArgs}
use resilix.Driver.Messages.{xread_group}
use resilix.Driver.Methods.{driver}
use resilix.Driver.Missing.{on_driver, missing_public, translated-nil}

-- Redis answers each read with redis.Nil, as it does when the time to block is over, and the breaker
-- stands meanwhile.
abbrev pub Idle : {E : Type 0} → UniversalClient (World E) → Type 0
Idle {E} r =
    (args : XReadGroupArgs) (w : World E)
    → (e : Error) × ((r.xread_group args w).0 ≡ err e)
      × (is_redis_nil e ≡ true)
      × ((r.xread_group args w).1.breaker ≡ w.breaker)

-- Reads one behind the other, their results dropped.
abbrev pub read_times : {E : Type 0} → Session E → StreamReadRequest → ℕ → World E → World E
read_times c request zero w = w
read_times c request (suc n) w = read_times c request n (read_group c request w).1

answered-nil :
    {W A B : Type 0} (f : A → B) (x : Result A × W) (e : Error)
    → x.0 ≡ err e
    → is_redis_nil e ≡ true
    → answered f x ≡ (err key_not_found, x.1)
unfolding answered
answered-nil f (ok a, w) e h missing = ground (arith, h)
answered-nil f (err e', w) e h missing =
    ap (λ k. (err k, w)) (translated-nil e' (ground (arith, h, missing)))

module _ {E S : Type 0} (c : Session E) (r : UniversalClient (World E)) (view : E → S)
    (quiet : Quiet (on_driver c r) view) (final : c.client.policy.classifier key_not_found ≡ false)
    (idle : Idle r) (request : StreamReadRequest)
    (valid : validate_string_slice "streams" request.streams ≡ none) where
  abbrev op : Operation
  op = record { name = "XREADGROUP"; kind = "stream"; keys = request.streams }

  idle-answer :
      (w : World E)
      → (w' : World E) × (xread_group r request w ≡ (err key_not_found, w'))
        × (w'.breaker ≡ w.breaker)
  unfolding xread_group
  idle-answer w =
      let args : XReadGroupArgs = record {
        group = request.group;
        consumer = request.consumer;
        streams = request.streams ++ request.ids;
        count = request.count;
        block = request.block;
        no_ack = request.no_ack;
      } in
      let (e, failing, missing, same) = idle args w in
      (
        (r.xread_group args w).1,
        answered-nil to_contract_streams (r.xread_group args w) e failing missing,
        same,
      )

  fail-breaker :
      (w : World E) (b : Breaker)
      → w.breaker ≡ some b
      → (fail (caller (on_driver c r) (λ l. responses l) (xread_group r request)) w).breaker
        ≡ some (record_failure (c.now w.env) b)
  unfolding fail caller
  fail-breaker w b there = rw there refl

  idle-read :
      (w : World E) (b : Breaker)
      → w.breaker ≡ some b
      → b.state ≡ closed
      → (t : Time) × ((read_group (on_driver c r) request w).0
          ≡ some (err (operation "XREADGROUP" request.streams key_not_found)))
        × ((read_group (on_driver c r) request w).1.breaker ≡ some (record_failure t b))
  unfolding read_group checked driver
  idle-read w b there rest =
      let on = on_driver c r in
      let (w', run, same) = idle-answer (begun on op w) in
      let calm : Calm w = λ b' e. ground (arith, there, rest, e) in
      let stands : w'.breaker ≡ some b =
        same
        ∙ (quiet.begin_keeps op (c.client.acquire op w).1).0
        ∙ (quiet.acquire_keeps op w).0
        ∙ there in
      let told = fail (caller on (λ l. responses l) (xread_group r request)) w' in
      let over = failed on (λ l. responses l) (xread_group r request) key_not_found w' in
      let kept : over.breaker ≡ told.breaker =
        (quiet.release_keeps (c.client.finish (some key_not_found) told)).0
        ∙ (quiet.finish_keeps (some key_not_found) told).0 in
      let sent =
        send-permanent on view quiet (λ l. responses l) (xread_group r request)
          (λ x. as_responses x) op w w' key_not_found calm final run in
      (
        c.now w'.env,
        rw valid (ap (λ x. x.0) sent ∙ ap (λ x. some (err x)) (missing_public op)),
        rw valid (ap (λ x. x.1.breaker) sent ∙ kept ∙ fail-breaker w' b stands),
      )

  idle_from :
      (k n : ℕ) (w : World E) (b : Breaker)
      → w.breaker ≡ some b
      → IsValid b
      → b.state ≡ closed
      → b.failures ≡ pos n
      → b.cfg.failure_threshold ≡ pos (suc (n + k))
      → (b' : Breaker) × ((read_times (on_driver c r) request (suc k) w).breaker ≡ some b')
        × (b'.state ≡ open_)
  idle_from zero n w b there v s f th =
      let (t, _, left) = idle-read w b there s in
      let (o, _, _) = record_failure_last b t v s n f (ground (arith, th)) in
      (record_failure t b, left, o)
  idle_from (suc k) n w b there v s f th =
      let (t, _, left) = idle-read w b there s in
      let (s', f', same) = record_failure_below b t v s n k f (ground (arith, th)) in
      idle_from k (suc n) (read_group (on_driver c r) request w).1 (record_failure t b) left
        (record_failure-IsValid t v) s' f' (ground (arith, same, th))

  -- A consumer of a stream in which nothing is written: a read that Redis answers with redis.Nil is
  -- an error for its caller, that no key was found; and as many such reads as the threshold says, one
  -- behind the other, open a closed breaker, with Redis well. (The client has no hooks and room for
  -- the call, the classifier does not retry ErrKeyNotFound, and no failure is counted before.)
  pub idle_reads_open :
      (k : ℕ) (w : World E) (b : Breaker)
      → w.breaker ≡ some b
      → IsValid b
      → b.state ≡ closed
      → b.failures ≡ pos 0
      → b.cfg.failure_threshold ≡ pos (suc k)
      → ((read_group (on_driver c r) request w).0
          ≡ some (err (operation "XREADGROUP" request.streams key_not_found)))
        × ((b' : Breaker) × ((read_times (on_driver c r) request (suc k) w).breaker ≡ some b')
            × (b'.state ≡ open_))
  idle_reads_open k w b there v s f th =
      ((idle-read w b there s).1, idle_from k 0 w b there v s f (ground (arith, th)))
