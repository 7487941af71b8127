-- ===== src/Driver/Pipelines.antt =====
-- Pipelines and transactions of sdk/go/internal/driver/goredis/driver.go: the commands that the body
-- queues, and the results that are made of what was executed.
use resilix.Prelude.{
  String, Option, none, some, List, [], ◌∷◌, ◌++◌, map, str_eq, not, if◌then◌else◌,
}
use resilix.Errors.{Error, Result, ok, err, wrapped, is_word}
use resilix.Mock.Pipeline.{PipelineCommand, CommandResult, Reply}
use resilix.Driver.{
  normalize_error, anys, to_z, to_contract_zmembers, unsupported_pipeline_command,
  missing_pipeline_result,
}
use resilix.Driver.Redis.{
  UniversalClient, Queued, pipe_set, pipe_get, pipe_del, pipe_incr, pipe_decr, pipe_expire,
  pipe_hset, pipe_sadd, pipe_zadd, pipe_xadd, pipe_mset, Val, status_cmd, string_cmd, int_cmd,
  bool_cmd, duration_cmd, float_cmd, string_slice_cmd, map_string_string_cmd, zslice_cmd, slice_cmd,
  other_cmd, Cmder, Body,
}

-- The switch of `applyCommand`: the call on the Pipeliner, `none` for its default.
unfoldable pub call_of : PipelineCommand → Option Queued
unfolding is_word
call_of c =
    if is_word "SET" c.name
    then some (pipe_set c.key c.value c.ttl)
    else if is_word "GET" c.name
    then some (pipe_get c.key)
    else if is_word "DEL" c.name
    then some (pipe_del c.keys)
    else if is_word "INCR" c.name
    then some (pipe_incr c.key)
    else if is_word "DECR" c.name
    then some (pipe_decr c.key)
    else if is_word "EXPIRE" c.name
    then some (pipe_expire c.key c.ttl)
    else if is_word "HSET" c.name
    then some (pipe_hset c.key c.values)
    else if is_word "SADD" c.name
    then some (pipe_sadd c.key (anys c.members))
    else if is_word "ZADD" c.name
    then some (pipe_zadd c.key (map to_z c.zmembers))
    else if is_word "XADD" c.name
    then some (
        pipe_xadd (record {
          stream = c.key;
          max_len = c.max_len;
          approx = c.approximate;
          values = c.stream_values;
        }))
    else if is_word "MSET" c.name
    then some (pipe_mset c.values)
    else none

-- The call, or the error of the default.
unfoldable pub called : Option Queued → String → Body
called none name queue = (some (wrapped unsupported_pipeline_command name), queue)
called (some q) name queue = (none, queue ++ q ∷ [])

unfoldable pub apply_command : PipelineCommand → Body
unfolding called
apply_command c = called (call_of c) c.name

-- The end of a round of the loop: it is left at an error.
unfoldable pub unless_refused : Option Error × List Queued → Body → Option Error × List Queued
unless_refused (some e, queue) rest = (some e, queue)
unless_refused (none, queue) rest = rest queue

-- The function that is given to Pipelined.
unfoldable pub apply_all : List PipelineCommand → Body
unfolding unless_refused
apply_all [] queue = (none, queue)
apply_all (c ∷ cs) queue = unless_refused (apply_command c queue) (λ q. apply_all cs q)

unfoldable pub pipeline_key : PipelineCommand → String
pipeline_key c = if not (str_eq c.key "") then c.key else elim c.keys [ [] ↦ "" | key ∷ more ↦ key ]

unfoldable pub extract_value : Val → Reply
extract_value (status_cmd s) = Reply.str s
extract_value (string_cmd s) = Reply.str s
extract_value (int_cmd n) = Reply.int n
extract_value (bool_cmd b) = Reply.bool b
extract_value (duration_cmd d) = Reply.int d
extract_value (float_cmd x) = Reply.float x
extract_value (string_slice_cmd l) = Reply.strings l
extract_value (map_string_string_cmd d) = Reply.fields d
extract_value (zslice_cmd l) = Reply.zmembers (to_contract_zmembers l)
extract_value (slice_cmd l) = Reply.values l
extract_value (other_cmd s) = Reply.str s

-- The value of a command that has failed is left out.
unfoldable pub valued : Reply → Option Error → Result Reply
valued value none = ok value
valued value (some e) = err e

unfoldable pub result_of : Cmder → Result Reply
unfolding extract_value valued
result_of c = valued (extract_value c.val) (normalize_error c.err)

unfoldable pub command_result : PipelineCommand → Result Reply → CommandResult
command_result c result = record { name = c.name; key = pipeline_key c; result = result }

-- The loop over the commands, with what was executed from the index of the first on.
unfoldable pub to_command_results : List PipelineCommand → List Cmder → List CommandResult
unfolding command_result result_of
to_command_results [] executed = []
to_command_results (c ∷ cs) [] =
    command_result c (err (wrapped missing_pipeline_result c.name)) ∷ to_command_results cs []
to_command_results (c ∷ cs) (e ∷ es) = command_result c (result_of e) ∷ to_command_results cs es

-- `return toCommandResults(commands, executed), normalizeError(err)`
unfoldable pub reported {ℓ} :
    {W : Type ℓ}
    → List PipelineCommand
    → (List Cmder × Option Error) × W
    → (List CommandResult × Option Error) × W
unfolding to_command_results
reported commands ((executed, e), w) =
    ((to_command_results commands executed, normalize_error e), w)

-- What a caller makes of the two values: the results are not read where there is an error.
unfoldable pub settled {ℓ} :
    {W : Type ℓ} → (List CommandResult × Option Error) × W → Result (List CommandResult) × W
settled ((results, none), w) = (ok results, w)
settled ((results, some e), w) = (err e, w)

module _ {W : Type 0} (r : UniversalClient W) where
  unfoldable pub pipeline : List PipelineCommand → W → (List CommandResult × Option Error) × W
  unfolding reported apply_all
  pipeline commands w = reported commands (r.pipelined (apply_all commands) w)

  -- The function given to Watch: it assigns `executed` and returns `txErr`.
  unfoldable pub in_watch : List PipelineCommand → W → (Option Error × List Cmder) × W
  unfolding apply_all
  in_watch commands w =
      let ((executed, e), w') = r.tx_pipelined (apply_all commands) w in ((e, executed), w')

  unfoldable pub transaction :
      List String → List PipelineCommand → W → (List CommandResult × Option Error) × W
  unfolding reported in_watch
  transaction [] commands w = reported commands (r.tx_pipelined (apply_all commands) w)
  transaction (key ∷ keys) commands w =
      let ((e, executed), w') = r.watch (in_watch commands) (key ∷ keys) w in
      reported commands ((executed, e), w')
