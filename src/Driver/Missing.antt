-- ===== src/Driver/Missing.antt =====
-- A key that is not there, from Redis to the caller: the driver of
-- sdk/go/internal/driver/goredis/driver.go below the client and the services.
use resilix.Prelude.{
  ◌≡◌, refl, ap, sym, ◌∙◌, true, false, Option, none, some, List, [], ◌∷◌, String, arith,
}
use resilix.Errors.{
  Error, err, operation, key_not_found, is_key_not_found, is_redis_nil, wrap_operation_error,
  as_operation_error,
}
use resilix.Validation.{validate_key}
use resilix.Mock.Pipeline.{PipelineCommand, CommandResult}
use resilix.Client.{Operation, normalize_public_error}
use resilix.Client.Failures.{public_error}
use resilix.Retry.{World}
use resilix.Contract.{str, results, Command}
use resilix.Services.{Session, checked}
use resilix.Services.Kv
use resilix.Services.Pipeline
use resilix.Services.Pipeline.{Builder, built}
use resilix.Services.Quiet.{Calm, Quiet}
use resilix.Services.Permanent.{begun, failed, send-permanent}
use resilix.Driver.{translated, normalize_error, answered}
use resilix.Driver.Redis.{UniversalClient, Cmder, Queued, Executed}
use resilix.Driver.Keys
use resilix.Driver.Pipelines
use resilix.Driver.Pipelines.{settled, reported, apply_all}
use resilix.Driver.Methods.{driver}
use resilix.Driver.Results.{known, first_failure, IsPipelined, promised, run-promised}

-- The client with the driver as its backend.
abbrev pub on_driver : {E : Type 0} → Session E → UniversalClient (World E) → Session E
on_driver c r = record c { backend = driver r }

abbrev pub get_op : String → Operation
get_op key = record { name = "GET"; kind = "kv"; keys = key ∷ [] }

abbrev pub pipeline_op : Operation
pipeline_op = record { name = "PIPELINE"; kind = "pipeline"; keys = [] }

pub missing_public :
    (op : Operation) → public_error op key_not_found ≡ operation op.name op.keys key_not_found
unfolding public_error normalize_public_error is_key_not_found wrap_operation_error
    as_operation_error
missing_public op = refl

pub translated-nil : (e : Error) → is_redis_nil e ≡ true → translated e ≡ key_not_found
unfolding translated
translated-nil e h = rw h refl

-- A run whose first failed command has found no key.
module _ {W : Type 0} (exec : List Queued → W → Executed W) (commands : List PipelineCommand)
    (executed : List Cmder) (e : Error) (missing : is_redis_nil e ≡ true) (w w' : W) where
  promised_missing :
      (k : List Queued × Option String)
      → k.1 ≡ none
      → exec k.0 w ≡ ((executed, some e), w')
      → settled (promised exec commands k w) ≡ (err key_not_found, w')
  unfolding settled reported normalize_error
  promised_missing (queue, none) names run =
      rw run (ap (λ x. (err x, w')) (translated-nil e missing))
  promised_missing (queue, some name) names run = ground arith

  settled_missing :
      (r : UniversalClient W) (o : Option Error)
      → IsPipelined r.pipelined exec
      → (known commands).1 ≡ none
      → exec (known commands).0 w ≡ ((executed, o), w')
      → first_failure executed ≡ some e
      → settled (Pipelines.pipeline r commands w) ≡ (err key_not_found, w')
  unfolding Pipelines.pipeline
  settled_missing r o law names run failing =
      let found : o ≡ some e =
        sym (ap (λ x. x.0.1) run)
        ∙ law.first (known commands).0 w
        ∙ ap (λ x. first_failure x.0.0) run
        ∙ failing in
      ap settled (run-promised r.pipelined exec law commands w)
      ∙ promised_missing (known commands) names (run ∙ ap (λ x. ((executed, x), w')) found)

module _ {E S : Type 0} (c : Session E) (r : UniversalClient (World E)) (view : E → S)
    (quiet : Quiet (on_driver c r) view)
    (final : c.client.policy.classifier key_not_found ≡ false) where
  -- Where Redis answers a GET with redis.Nil, Get returns the OperationError of the GET and its key
  -- with ErrKeyNotFound as the cause, and the state is the one behind that single GET, with a failure
  -- recorded: nothing is tried again. (The client is at rest, the key is not blank, and the
  -- classifier does not retry ErrKeyNotFound.)
  pub get_missing :
      (key : String) (w w' : World E) (e : Error)
      → Calm w
      → validate_key key ≡ none
      → r.get key (begun (on_driver c r) (get_op key) w) ≡ (err e, w')
      → is_redis_nil e ≡ true
      → Kv.get (on_driver c r) key w ≡ (
        some (err (operation "GET" (key ∷ []) key_not_found)),
        failed (on_driver c r) (λ s. str s) (Keys.get r key) key_not_found w',
      )
  unfolding Kv.get checked driver Keys.get answered
  get_missing key w w' e calm valid run missing =
      let ran : Keys.get r key (begun (on_driver c r) (get_op key) w) ≡ (err key_not_found, w') =
        rw (run, translated-nil e missing) refl in
      let over = failed (on_driver c r) (λ s. str s) (Keys.get r key) key_not_found w' in
      rw valid (
        send-permanent (on_driver c r) view quiet (λ s. str s) (Keys.get r key) _ (get_op key) w w'
          key_not_found calm final ran
        ∙ ap (λ x. (some (err x), over)) (missing_public (get_op key)))

  -- Where a pipeline is executed whose first failed command has found no key, Pipeline returns the
  -- OperationError of the pipeline with ErrKeyNotFound as the cause, and not one of the results: what
  -- the other commands of it have returned is lost. A failure is recorded. (The client is at rest,
  -- the driver knows the names of the commands, Pipelined and Exec do what their documentation says,
  -- and the classifier does not retry ErrKeyNotFound.)
  pub pipeline_missing :
      (exec : List Queued → World E → Executed (World E))
      → IsPipelined r.pipelined exec
      → (fn : Option (Builder → Builder)) (w w' : World E) (executed : List Cmder)
        (o : Option Error) (e : Error)
      → Calm w
      → (known (built fn)).1 ≡ none
      → exec (known (built fn)).0 (begun (on_driver c r) pipeline_op w) ≡ ((executed, o), w')
      → first_failure executed ≡ some e
      → is_redis_nil e ≡ true
      → Pipeline.pipeline (on_driver c r) fn w ≡ (
        some (err (operation "PIPELINE" [] key_not_found)),
        failed
            (on_driver c r)
            (λ l. results l)
            (λ s. settled (Pipelines.pipeline r (built fn) s))
            key_not_found
            w',
      )
  unfolding Pipeline.pipeline driver
  pipeline_missing exec law fn w w' executed o e calm names run failing missing =
      let command : Command (World E) (List CommandResult) =
        λ s. settled (Pipelines.pipeline r (built fn) s) in
      let ran : command (begun (on_driver c r) pipeline_op w) ≡ (err key_not_found, w') =
        settled_missing exec (built fn) executed e missing (begun (on_driver c r) pipeline_op w) w'
          r o law names run failing in
      let over = failed (on_driver c r) (λ l. results l) command key_not_found w' in
      send-permanent (on_driver c r) view quiet (λ l. results l) command _ pipeline_op w w'
        key_not_found calm final ran
      ∙ ap (λ x. (some (err x), over)) (missing_public pipeline_op)
