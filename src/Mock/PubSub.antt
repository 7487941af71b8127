-- ===== src/Mock/PubSub.antt =====
-- Subscriptions: Publish, Subscribe, Close and mockSub of sdk/go/resilixtest/mock.go. Go's mutex is
-- not reentrant, so a goroutine that locks `pubsub.mu` while it holds it waits for ever: that is
-- `none` below.
pub mod Closing
use resilix.Prelude.{
  ℕ, zero, suc, String, Bool, true, false, ◌==◌, ltb, Option, none, some, List, [], ◌∷◌, ◌++◌,
  length, get_elem?, if◌then◌else◌,
}
use resilix.Errors.{Result, ok}
use resilix.Dict
use resilix.Mock.{Mock, MockSub, PubSubState, Message, Value, sprint, guarded}

-- The capacity of a subscription's channel.
abbrev pub capacity : ℕ
capacity = 128

-- `ch <- msg`, or nothing where the channel is full.
unfoldable pub deliver : Message → MockSub → MockSub
deliver msg s = if ltb (length s.ch) capacity then record s { ch = s.ch ++ msg ∷ [] } else s

-- A change of the subscription at a place.
unfoldable pub modify_at : ℕ → (MockSub → MockSub) → List MockSub → List MockSub
modify_at i f [] = []
modify_at zero f (s ∷ l) = f s ∷ l
modify_at (suc i) f (s ∷ l) = s ∷ modify_at i f l

unfoldable pub deliver_each : Message → List ℕ → List MockSub → List MockSub
unfolding deliver modify_at
deliver_each msg [] all = all
deliver_each msg (i ∷ is) all = deliver_each msg is (modify_at i (deliver msg) all)

abbrev pub subs_at : PubSubState → String → List ℕ
subs_at p channel = Dict.get_or p.subs channel []

unfoldable pub publish : String → Value → Mock → Result ℕ × Mock
unfolding deliver_each
publish channel payload = guarded "Publish" λ m.
    let subs = subs_at m.pubsub channel in
    let msg : Message = record { channel = channel; pattern = ""; payload = sprint payload } in
    (
      ok (length subs),
      record m { pubsub = record m.pubsub { all = deliver_each msg subs m.pubsub.all } },
    )

unfoldable pub subscribe_each : ℕ → List String → PubSubState → PubSubState
subscribe_each i [] p = p
subscribe_each i (c ∷ cs) p =
    subscribe_each i cs (record p { subs = Dict.put p.subs c (subs_at p c ++ i ∷ []) })

-- The new subscription is given by its place.
unfoldable pub subscribe : List String → Mock → Result ℕ × Mock
unfolding subscribe_each
subscribe channels = guarded "Subscribe" λ m.
    let i = length m.pubsub.all in
    let s : MockSub = record { ch = []; channels = channels; done = false } in
    (
      ok i,
      record m {
        pubsub = subscribe_each i channels (record m.pubsub { all = m.pubsub.all ++ s ∷ [] });
      },
    )

unfoldable pub drop_id : ℕ → List ℕ → List ℕ
drop_id i [] = []
drop_id i (j ∷ js) = let rest = drop_id i js in if j == i then rest else j ∷ rest

unfoldable pub unsubscribe_each : ℕ → List String → PubSubState → PubSubState
unfolding drop_id
unsubscribe_each i [] p = p
unsubscribe_each i (c ∷ cs) p =
    unsubscribe_each i cs (record p { subs = Dict.put p.subs c (drop_id i (subs_at p c)) })

unfoldable pub is_done : Option MockSub → Bool
is_done none = true
is_done (some s) = s.done

-- The function that `once` runs. `held` says whether the caller holds `pubsub.mu`.
unfoldable pub shut : Bool → ℕ → List String → PubSubState → Option PubSubState
unfolding unsubscribe_each modify_at
shut true i channels p = none
shut false i channels p =
    let p' = unsubscribe_each i channels p in
    some (record p' { all = modify_at i (λ s. record s { done = true }) p'.all })

unfoldable pub channels_of : Option MockSub → List String
channels_of none = []
channels_of (some s) = s.channels

-- `mockSub.close`
unfoldable pub sub_close : Bool → ℕ → PubSubState → Option PubSubState
unfolding shut is_done channels_of
sub_close held i p =
    let s = get_elem? p.all i in if is_done s then some p else shut held i (channels_of s) p

unfoldable pub close_each : List ℕ → PubSubState → Option PubSubState
unfolding sub_close
close_each [] p = some p
close_each (i ∷ is) p = elim (sub_close true i p) [ none ↦ none | some p' ↦ close_each is p' ]

unfoldable pub all_ids : List (String × List ℕ) → List ℕ
all_ids [] = []
all_ids ((c, is) ∷ l) = is ++ all_ids l

-- `MockBackend.Close`, which holds both mutexes over its loops.
unfoldable pub close : Mock → Option Mock
unfolding close_each all_ids
close m = elim (close_each (all_ids m.pubsub.subs.entries) m.pubsub) [
  | none ↦ none
  | some p ↦ some (record m { closed = true; pubsub = record p { subs = Dict.empty } })
]
