-- ===== src/Driver/Results.antt =====
-- What a pipeline sends, and which result belongs to which command: Pipeline and toCommandResults of
-- sdk/go/internal/driver/goredis/driver.go.
use resilix.Prelude.{
  ℕ, zero, suc, ◌≡◌, refl, ap, ◌∙◌, String, Option, none, some, List, [], ◌∷◌, ◌++◌, append-nil,
  map, append_assoc, get_elem?,
}
use resilix.Errors.{Error, Result, err, wrapped}
use resilix.Mock.Pipeline.{PipelineCommand, CommandResult, Reply}
use resilix.Errors.{is_redis_nil}
use resilix.Driver.{
  translated, normalize_error, missing_pipeline_result, unsupported_pipeline_command,
}
use resilix.Driver.Redis.{Queued, Cmder, UniversalClient, Body, Executed}
use resilix.Driver.Pipelines.{
  call_of, called, unless_refused, apply_command, apply_all, result_of, command_result,
  to_command_results, pipeline_key, pipeline, reported, transaction,
}

-- The result of a command, where this is what was executed at its place.
abbrev pub reply_to : PipelineCommand → Option Cmder → Result Reply
reply_to c none = err (wrapped missing_pipeline_result c.name)
reply_to c (some x) = result_of x

abbrev pub at_place : Option PipelineCommand → Option Cmder → Option CommandResult
at_place none x = none
at_place (some c) x = some (record { name = c.name; key = pipeline_key c; result = reply_to c x })

-- The results stand in the order of the commands, one for each: at each index the name and the key
-- of the command there, with the outcome of the Cmder at the same index, or with the error of a
-- missing result if fewer were executed. Cmders beyond the last command are dropped.
pub results-by_place :
    (commands : List PipelineCommand) (executed : List Cmder) (i : ℕ)
    → get_elem? (to_command_results commands executed) i
      ≡ at_place (get_elem? commands i) (get_elem? executed i)
unfolding to_command_results command_result
results-by_place [] executed i = refl
results-by_place (c ∷ cs) [] zero = refl
results-by_place (c ∷ cs) [] (suc i) = results-by_place cs [] i
results-by_place (c ∷ cs) (x ∷ xs) zero = refl
results-by_place (c ∷ cs) (x ∷ xs) (suc i) = results-by_place cs xs i

abbrev in_front : Option Queued → String → List Queued × Option String → List Queued × Option String
in_front none name rest = ([], some name)
in_front (some q) name (queue, bad) = (q ∷ queue, bad)

-- The calls of the commands before the first that the driver does not know, and that one's name.
abbrev pub known : List PipelineCommand → List Queued × Option String
known [] = ([], none)
known (c ∷ cs) = in_front (call_of c) c.name (known cs)

abbrev pub refusal : Option String → Option Error
refusal none = none
refusal (some name) = some (wrapped unsupported_pipeline_command name)

round-known :
    (o : Option Queued) (name : String) (cs : List PipelineCommand) (queue : List Queued)
    → ((q : List Queued) → apply_all cs q ≡ (refusal (known cs).1, q ++ (known cs).0))
    → unless_refused (called o name queue) (λ q. apply_all cs q)
      ≡ (refusal (in_front o name (known cs)).1, queue ++ (in_front o name (known cs)).0)
unfolding unless_refused called
round-known none name cs queue rest = rw (append-nil queue) refl
round-known (some q) name cs queue rest =
    rest (queue ++ q ∷ []) ∙ rw (append_assoc queue (q ∷ []) (known cs).0) refl

apply_all-known :
    (commands : List PipelineCommand) (queue : List Queued)
    → apply_all commands queue ≡ (refusal (known commands).1, queue ++ (known commands).0)
unfolding apply_all apply_command
apply_all-known [] queue = rw (append-nil queue) refl
apply_all-known (c ∷ cs) queue = round-known (call_of c) c.name cs queue (λ q. apply_all-known cs q)

abbrev pub first_failure : List Cmder → Option Error
first_failure [] = none
first_failure (x ∷ xs) = elim x.err [ none ↦ first_failure xs | some e ↦ some e ]

-- What the documentation of the client library says of Pipelined and of Exec: where the function
-- that Pipelined is given returns an error, that is returned, and nothing is executed; otherwise the
-- queue is, and the error is that of the first command that failed.
pub record IsPipelined {W : Type 0} (pipelined : Body → W → Executed W)
    (exec : List Queued → W → Executed W) : Type 0 where
  pub refused :
      (body : Body) (e : Error) (w : W)
      → (body []).0 ≡ some e
      → pipelined body w ≡ (([], some e), w)
  pub sent : (body : Body) (w : W) → (body []).0 ≡ none → pipelined body w ≡ exec (body []).1 w
  pub first : (queue : List Queued) (w : W) → (exec queue w).0.1 ≡ first_failure (exec queue w).0.0

abbrev no_result : PipelineCommand → CommandResult
no_result c = command_result c (err (wrapped missing_pipeline_result c.name))

-- What a run of the commands comes to, by what `known` finds in them.
abbrev pub promised :
    {W : Type 0}
    → (List Queued → W → Executed W)
    → List PipelineCommand
    → List Queued × Option String
    → W
    → (List CommandResult × Option Error) × W
promised exec commands (queue, none) w = reported commands (exec queue w)
promised exec commands (queue, some name) w =
    ((map no_result commands, some (wrapped unsupported_pipeline_command name)), w)

none-executed :
    (commands : List PipelineCommand) → to_command_results commands [] ≡ map no_result commands
unfolding to_command_results
none-executed [] = refl
none-executed (c ∷ cs) = ap (λ l. no_result c ∷ l) (none-executed cs)

module _ {W : Type 0} (pipelined : Body → W → Executed W) (exec : List Queued → W → Executed W)
    (law : IsPipelined pipelined exec) (commands : List PipelineCommand) (w : W) where
  promised-by :
      (k : List Queued × Option String)
      → apply_all commands [] ≡ (refusal k.1, k.0)
      → reported commands (pipelined (apply_all commands) w) ≡ promised exec commands k w
  unfolding reported normalize_error translated is_redis_nil
  promised-by (queue, none) body =
      rw (law.sent (apply_all commands) w (ap (λ x. x.0) body), body) refl
  promised-by (queue, some name) body =
      rw (law.refused (apply_all commands) _ w (ap (λ x. x.0) body), none-executed commands) refl

  pub run-promised :
      reported commands (pipelined (apply_all commands) w)
      ≡ promised exec commands (known commands) w
  run-promised = promised-by (known commands) (apply_all-known commands [])

-- A pipeline, and a transaction that watches no keys, sends all of its commands or none. Where the
-- driver knows every name, in whatever case, the calls of the commands are executed in their order,
-- and the results are made of that; otherwise nothing is executed, the error names the first command
-- that the driver does not know, and each command has the error of a missing result. (Pipelined and
-- TxPipelined do what their documentation says.)
pub pipeline-all_or_none :
    {W : Type 0} (r : UniversalClient W) (exec exec_tx : List Queued → W → Executed W)
    → IsPipelined r.pipelined exec
    → IsPipelined r.tx_pipelined exec_tx
    → (commands : List PipelineCommand) (w : W)
    → (pipeline r commands w ≡ promised exec commands (known commands) w)
      × (transaction r [] commands w ≡ promised exec_tx commands (known commands) w)
unfolding pipeline transaction
pipeline-all_or_none r exec exec_tx law law_tx commands w = (
  run-promised r.pipelined exec law commands w,
  run-promised r.tx_pipelined exec_tx law_tx commands w,
)
