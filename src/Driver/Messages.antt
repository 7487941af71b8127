-- ===== src/Driver/Messages.antt =====
-- The methods of channels, streams, scripts and Scan:
-- sdk/go/internal/driver/goredis/driver.go. A subscription is the number of its PubSub; what its
-- goroutine passes on stands in the parent, as `relayed`.
use resilix.Prelude.{ℕ, String, Bool, List, ◌++◌, if◌then◌else◌}
use resilix.Prelude.Int.{ℤ}
use resilix.Errors.{Result, ok, err, codes, contains, message}
use resilix.Dict.{Dict}
use resilix.Mock.{Value}
use resilix.Mock.Stream.{StreamReadRequest, StreamReadResponse}
use resilix.Contract.{Any, Command}
use resilix.Driver.{translated, normalized, answered, to_contract_streams}
use resilix.Driver.Redis.{UniversalClient}

-- A group that is there is no error.
unfoldable pub created : {W : Type 0} → Result (Unit {0}) × W → Result (Unit {0}) × W
unfolding contains message
created (ok u, w) = (ok u, w)
created (err e, w) =
    if contains (codes "BUSYGROUP") (message e) then (ok tt, w) else (err (translated e), w)

module _ {W : Type 0} (r : UniversalClient W) where
  unfoldable pub publish : String → Value → Command W ℤ
  publish channel payload = normalized (r.publish channel payload)

  -- On an error of the ping the PubSub is left as it is.
  unfoldable pub subscribe : List String → Command W ℕ
  unfolding answered
  subscribe channels w =
      let (pubsub, w') = r.subscribe channels w in answered (λ u. pubsub) (r.pubsub_ping pubsub w')

  -- `Close` of a subscription.
  unfoldable pub subscription_close : ℕ → Command W (Unit {0})
  subscription_close pubsub = r.pubsub_close pubsub

  unfoldable pub xadd : String → Dict Value → ℤ → Bool → Command W String
  xadd stream values max_len approximate = normalized (
      r.xadd (record { stream = stream; max_len = max_len; approx = approximate; values = values }))

  unfoldable pub xread_group : StreamReadRequest → Command W (List StreamReadResponse)
  xread_group request = λ w. answered to_contract_streams (
      r.xread_group
        (record {
          group = request.group;
          consumer = request.consumer;
          streams = request.streams ++ request.ids;
          count = request.count;
          block = request.block;
          no_ack = request.no_ack;
        })
        w)

  unfoldable pub xack : String → String → List String → Command W ℤ
  xack stream group ids = normalized (r.xack stream group ids)

  unfoldable pub xdel : String → List String → Command W ℤ
  xdel stream ids = normalized (r.xdel stream ids)

  unfoldable pub xgroup_create_mk_stream : String → String → String → Command W (Unit {0})
  unfolding created
  xgroup_create_mk_stream stream group start w =
      created (r.xgroup_create_mk_stream stream group start w)

  unfoldable pub eval : String → List String → List Value → Command W Any
  eval script keys args = normalized (r.eval script keys args)

  unfoldable pub eval_sha : String → List String → List Value → Command W Any
  eval_sha sha keys args = normalized (r.eval_sha sha keys args)

  unfoldable pub script_load : String → Command W String
  script_load script = normalized (r.script_load script)

  unfoldable pub scan : ℕ → String → ℤ → Command W (List String × ℕ)
  scan cursor pattern count = normalized (r.scan cursor pattern count)
