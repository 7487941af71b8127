-- ===== src/Services/Closing.antt =====
-- What a client does behind Close of sdk/go/client.go.
use resilix.Prelude.{◌≡◌, refl, none, some, []}
use resilix.Errors.{client_closed}
use resilix.Mock.Stubs.{PoolStats}
use resilix.Retry.{World}
use resilix.Contract.{nil}
use resilix.Services.{Session, ignored}
use resilix.Services.Lifecycle.{ping, close, health, health_of, state_of}
use resilix.Services.Closed.{Refuses, send-closed}
use resilix.Services.Closed.Data.{
  KvClosed, HashClosed, ListsClosed, kv-closed, hash-closed, lists-closed,
}
use resilix.Services.Closed.Sent.{
  SetsClosed, ZsetClosed, MessagesClosed, sets-closed, zset-closed, messages-closed,
}
use resilix.Services.Closed.More.{
  ScriptClosed, SpecialClosed, PipelineClosed, script-closed, special-closed, pipeline-closed,
}
use resilix.Services.Closed.Batches.{BulkClosed, bulk-closed}

-- The methods of all services and of the client itself. Health takes the statistics of the pool and
-- reports them as degraded.
pub record Closed {E : Type 0} (c : Session E) : Type 0 where
  pub kv : KvClosed c
  pub hash : HashClosed c
  pub lists : ListsClosed c
  pub sets : SetsClosed c
  pub zset : ZsetClosed c
  pub messages : MessagesClosed c
  pub script : ScriptClosed c
  pub special : SpecialClosed c
  pub pipeline : PipelineClosed c
  pub bulk : BulkClosed c
  pub ping_refuses : Refuses none (ping c)
  pub health_degraded :
      (record_pool : PoolStats → World E → World E) (w : World E)
      → let w1 = record_pool (c.backend.pool_stats w) w in
        health c record_pool w ≡ (
          some (
            record {
              status = "degraded";
              timestamp = c.now w1.env;
              pool = c.backend.pool_stats w;
              breaker_state = state_of w1.breaker;
            },
            some client_closed,
          ),
          w1,
        )

-- Behind Close each method of the services returns the error of its own checks of the arguments, and
-- ErrClientClosed where they have none; it changes nothing, whatever its command is. Ping returns
-- ErrClientClosed, and Health records the statistics of the pool and reports them as degraded, with
-- ErrClientClosed.
pub close-refuses : {E : Type 0} (c : Session E) (w0 : World E) → Closed (close c w0).1
unfolding close ping health health_of
close-refuses c w0 =
    let c' = (close c w0).1 in
    record {
      kv = kv-closed c' refl;
      hash = hash-closed c' refl;
      lists = lists-closed c' refl;
      sets = sets-closed c' refl;
      zset = zset-closed c' refl;
      messages = messages-closed c' refl;
      script = script-closed c' refl;
      special = special-closed c' refl;
      pipeline = pipeline-closed c' refl;
      bulk = bulk-closed c' refl;
      ping_refuses = send-closed c' refl "PING" "control" [] (λ u. nil) c'.backend.ping ignored;
      health_degraded = λ record_pool w.
          rw
            (send-closed c' refl "PING" "control" [] (λ u. nil) c'.backend.ping ignored
              (record_pool (c.backend.pool_stats w) w))
            refl;
    }
