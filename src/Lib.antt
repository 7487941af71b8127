-- ===== src/Lib.antt =====
-- Resilix, the Go SDK: sdk/go.
--
-- A call of the client runs a command of a backend through the retry executor, which asks the
-- circuit breaker whether to run it and tells it of the outcome. Tests run the client on an
-- in-memory backend, which stands in for Redis. The distributed lock runs on backends of its own.
--
-- - Breaker: sdk/go/internal/breaker/breaker.go. The state of Breaker is the record of that name;
--   Allow, RecordSuccess and RecordFailure are the functions allow, record_success and
--   record_failure. Each holds the mutex throughout, so a run of any goroutines is a list of calls
--   (Call, run). The callbacks that are started, each in a goroutine, are kept in the order of
--   their start in the field notified; in which order they run is left open.
-- - Retry: sdk/go/internal/retry/executor.go. Do is do_; a round of its loop is round, its select
--   is pause with resume. The command, the clock, the backoff and the wait are the fields of
--   Caller, functions of the state of the world around the breaker, and may change the breaker as
--   other goroutines do.
-- - Backoff: sdk/go/internal/backoff/backoff.go, with the operations on float64 values as an
--   argument (FloatOps).
-- - Options: sdk/go/options.go. Normalize is normalize, its steps have their names in snake case,
--   and float64 values are of a type that is an argument, with the tests made of them.
--   Options/Universal has universalOptions.
-- - Config: sdk/go/config/config.go, with the file that is decoded in Config/Decoded. Load,
--   ApplyEnv, ApplyOverrides, BuildOptions and LoadOptions have their names in snake case; what
--   they call of other packages is an argument (Outside). Config/Watch has Watch of
--   sdk/go/config/watch.go, whose loop runs over the events that it receives. Keybuilder:
--   sdk/go/keybuilder/builder.go.
-- - Client: execute and normalizePublicError of sdk/go/client.go, the chain of
--   sdk/go/middleware.go, and what New gives the breaker; Services/Scan has Scan, whose callback
--   and pages are in Client/Scanning. Hooks, middleware, the admission controller and the recorder
--   are arguments (RedisClient). Client/Gate has the in-flight gate, whose calls by any goroutines
--   are the runs of a relation (Run). Services/Lifecycle has New, Ping, Health and Close,
--   Services/TestClient NewClient of sdk/go/resilixtest/client.go.
-- - Redlock: sdk/go/lock/redlock.go. Acquire, Release and Extend of Locker are acquire, release and
--   extend. A node is the state of a server, with its Eval as an argument (Outside), and so are the
--   clock and the wait, which may change the nodes as other clients and the expiry of keys do.
--   Durations do not wrap as an int64 does, and the drift of 1% is exact.
-- - Validation: sdk/go/validation.go, the checks of arguments. Contract: the interface of a
--   backend, sdk/go/internal/contract, as a record of functions (Backend), and the type Any of what
--   an operation returns.
-- - Services: sdk/go/services.go, geo.go, hll.go, bit.go and pipeline.go. Each method is a function
--   of its name in snake case, in a child for each service, on a Session: a client with its
--   backend. send is the common body: it runs one operation through execute and asserts the type of
--   the result. Services/Bulk has the calls in batches, Services/Pipeline the builder of pipelines,
--   which is the list of its commands.
-- - Driver: sdk/go/internal/driver/goredis/driver.go. Each method of Driver is a function of its
--   name in snake case, in a child for each kind, over the commands of the go-redis client
--   (Driver/Redis, UniversalClient), which are an argument; Driver/Methods makes a Backend of them.
--   normalizeError is translated, with normalize_error where there may be no error. applyCommand is
--   apply_command, toCommandResults is to_command_results. Services/Permanent has what a client
--   makes of an error that is not retried, with which Driver/Missing follows a missing key, and
--   Driver/Idle a read of a quiet stream, from Redis to the caller.
-- - Resilixctl: run of sdk/go/cmd/resilixctl/main.go, with its output as a list of lines.
-- - Telemetry: sdk/go/internal/telemetry/recorder.go, its metrics without the spans and the log.
--   Telemetry/Registry has their registration in a registry that is an argument, where New of two
--   clients may meet, and Telemetry/Shown joins the gauge of the breaker's state with the breaker,
--   through callbacks that may run late and in another order.
-- - Errors: sdk/go/errors.go, with the error values that the modules share, the chains that
--   errors.Is and errors.As follow, and wrapOperationError.
-- - Mock: sdk/go/resilixtest/mock.go. Each command is a function of the state Mock in snake case
--   (MGet is mget), in a child for each kind of value: Kv, Hash, Lists, Sets, Zset, Stream, Script,
--   PubSub, Stubs, Pipeline, Scan. Mock/Kv/Refinement has the store that the commands on keys are
--   compared with. Injected has the injected errors, with which every command begins.
-- - Decimal: the %d of fmt.Sprintf and fmt.Sscanf, with which the mock keeps its counters. Dict: a
--   Go map as a list of its entries. Prelude: numbers, text and lists for all of them.
--
-- A time or a duration is an integer of nanoseconds, a float64 of seconds in the backend's
-- interface is the nanoseconds it stands for, and a score is an integer. int64 additions that can
-- wrap are inc64 and dec64. The loops over attempts, keys, batches and entries are structural;
-- chunk has as much fuel as there are values, which its theorem shows to be enough; the loop of
-- Scan has fuel, one round for each key and one more, which its theorem shows to be enough. A
-- panic, and a goroutine that waits for ever for a mutex that it holds, are none.
--
-- Not modelled: the order in which Go ranges over a map (a Dict has one order), floating-point
-- rounding, slices that share memory with the stored ones (a result is a value of its own), the
-- order of goroutines behind a channel, and what lies outside the parts above: the client of
-- go-redis, spans, logs, and the TLS settings.
pub mod Prelude
pub mod Dict
pub mod Decimal
pub mod Errors
pub mod Validation
pub mod Options
pub mod Config
pub mod Keybuilder
pub mod Breaker
pub mod Backoff
pub mod Retry
pub mod Client
pub mod Redlock
pub mod Mock
pub mod Contract
pub mod Driver
pub mod Telemetry
pub mod Services
pub mod Resilixctl
