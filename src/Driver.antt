-- ===== src/Driver.antt =====
-- The driver of Redis: sdk/go/internal/driver/goredis/driver.go, over the client that Driver/Redis
-- describes. This file has what its methods share; the children have the methods by their kind, and
-- Methods the driver as a backend.
pub mod Redis
pub mod Keys
pub mod Data
pub mod Messages
pub mod Special
pub mod Pipelines
pub mod Methods
pub mod Clean
pub mod Hidden
pub mod Results
pub mod Missing
pub mod Idle
mod Tests
mod IdleTests
use resilix.Prelude.{
  ◌==◌, String, Bool, true, false, Option, none, some, List, [], ◌∷◌, map, str_eq, if◌then◌else◌,
}
use resilix.Errors.{Error, Result, ok, err, other, wrapped, key_not_found, is_redis_nil, is_word}
use resilix.Mock.{Value, sprint, text, ZMember, StreamEntry, Message}
use resilix.Mock.Stream.{StreamReadResponse}
use resilix.Mock.Pipeline.{PipelineCommand, CommandResult, Reply}
use resilix.Contract.{Command}
use resilix.Driver.Redis.{Z, XStream, XMessage, Received, Queued, Val, Cmder, Body}

abbrev pub unsupported_pipeline_command : Error
unsupported_pipeline_command = other "resilix: unsupported pipeline command"

abbrev pub missing_pipeline_result : Error
missing_pipeline_result = other "resilix: pipeline command did not produce a result"

abbrev pub bit_op_not_args : Error
bit_op_not_args = other "resilix: BitOp NOT requires exactly one source key"

abbrev pub unknown_bit_op : Error
unknown_bit_op = other "resilix: unknown BitOp operation"

-- What `normalizeError` makes of an error that is not nil.
unfoldable pub translated : Error → Error
unfolding is_redis_nil
translated e = if is_redis_nil e then key_not_found else e

unfoldable pub normalize_error : Option Error → Option Error
normalize_error none = none
normalize_error (some e) = some (translated e)

-- `return value, normalizeError(err)`, of a value that is converted by `f`.
unfoldable pub answered {ℓ} : {W : Type 0} {A B : Type ℓ} → (A → B) → Result A × W → Result B × W
answered f (ok a, w) = (ok (f a), w)
answered f (err e, w) = (err (translated e), w)

abbrev pub normalized : {W A : Type 0} → Command W A → Command W A
normalized command w = answered (λ a. a) (command w)

-- Strings as values of type `any`.
abbrev pub anys : List String → List Value
anys l = map (λ s. text s) l

abbrev pub to_z : ZMember → Z
to_z m = record { score = m.score; member = text m.member }

unfoldable pub to_contract_zmembers : List Z → List ZMember
to_contract_zmembers l = map (λ z. record { score = z.score; member = sprint z.member }) l

abbrev to_entry : XMessage → StreamEntry
to_entry m = record { id = m.id; values = m.values }

unfoldable pub to_contract_streams : List XStream → List StreamReadResponse
to_contract_streams l = map (λ s. record { stream = s.stream; entries = map to_entry s.messages }) l

-- What the goroutine of Subscribe puts into the channel of messages, until its source is closed.
unfoldable pub relayed : List Received → List Message
relayed l = map (λ m. record { channel = m.channel; pattern = m.pattern; payload = m.payload }) l
