-- ===== src/Services/Messages.antt =====
-- The services of channels and of streams: pubsubService and streamService of sdk/go/services.go.
use resilix.Prelude.{ℕ, String, Bool, List, [], ◌∷◌}
use resilix.Prelude.Int.{ℤ}
use resilix.Dict.{Dict}
use resilix.Mock.{Value}
use resilix.Mock.Stream.{StreamReadRequest, StreamReadResponse}
use resilix.Retry.{World}
use resilix.Validation.{
  first_error, validate_key, validate_key_as, validate_string_slice, validate_map,
}
use resilix.Contract.{nil, str, int, subscription, responses}
use resilix.Services.{
  Session, Outcome, send, checked, as_str, as_int, as_subscription, as_responses, ignored,
}

module _ {E : Type 0} (c : Session E) where
  unfoldable pub publish : String → Value → World E → Outcome E ℤ
  publish channel payload = checked c (validate_key_as "channel" channel) (
      send c "PUBLISH" "pubsub" (channel ∷ []) (λ n. int n) (c.backend.publish channel payload)
        as_int)

  unfoldable pub subscribe : List String → World E → Outcome E ℕ
  subscribe channels = checked c (validate_string_slice "channels" channels) (
      send c "SUBSCRIBE" "pubsub" channels (λ s. subscription s) (c.backend.subscribe channels)
        as_subscription)

  unfoldable pub add : String → Dict Value → ℤ → Bool → World E → Outcome E String
  add stream vs max_len approximate =
      checked c (first_error (validate_key_as "stream" stream) (validate_map "values" vs)) (
        send c "XADD" "stream" (stream ∷ []) (λ s. str s)
          (c.backend.xadd stream vs max_len approximate) as_str)

  unfoldable pub read_group : StreamReadRequest → World E → Outcome E (List StreamReadResponse)
  read_group request = checked c (validate_string_slice "streams" request.streams) (
      send c "XREADGROUP" "stream" request.streams (λ l. responses l)
        (c.backend.xread_group request) as_responses)

  unfoldable pub ack : String → String → List String → World E → Outcome E ℤ
  ack stream group ids =
      checked c
        (first_error (first_error (validate_key stream) (validate_key_as "group" group))
          (validate_string_slice "ids" ids))
        (send c "XACK" "stream" (stream ∷ []) (λ n. int n) (c.backend.xack stream group ids) as_int)

  unfoldable pub delete : String → List String → World E → Outcome E ℤ
  delete stream ids =
      checked c (first_error (validate_key stream) (validate_string_slice "ids" ids))
        (send c "XDEL" "stream" (stream ∷ []) (λ n. int n) (c.backend.xdel stream ids) as_int)

  unfoldable pub create_group : String → String → String → World E → Outcome E (Unit {0})
  create_group stream group start =
      checked c (first_error (validate_key stream) (validate_key_as "group" group)) (
        send c "XGROUP" "stream" (stream ∷ []) (λ u. nil)
          (c.backend.xgroup_create_mk_stream stream group start) ignored)
