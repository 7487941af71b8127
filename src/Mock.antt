-- ===== src/Mock.antt =====
-- The in-memory backend: sdk/go/resilixtest/mock.go. This file has its state, the setters of its
-- tests, the injected errors and the reads that drop an expired key; the children have the
-- commands by their kind. A command holds the mutex from its first line to its return, so it is a
-- function of the state. A reading of the clock is an argument; float64 seconds are given by
-- the nanoseconds that they stand for, and float64 scores by integers.
pub mod Injected
pub mod Kv
pub mod Hash
pub mod Lists
pub mod Sets
pub mod Zset
pub mod Stream
pub mod Script
pub mod PubSub
pub mod Stubs
pub mod Pipeline
pub mod Scan
pub mod Endless
mod Tests
use resilix.Prelude.{
  ℕ, suc, ◌+◌, String, Bool, true, false, ◌&&◌, not, Option, none, some, List, [], ◌∷◌, ◌++◌,
  if◌then◌else◌,
}
use resilix.Prelude.Int.{ℤ, Time, ltb_ℤ}
use resilix.Errors.{Error, Result, ok, err}
use resilix.Dict
use resilix.Dict.{Dict}
use resilix.Decimal.{format}

-- A Go value of type `any`: a string, an integer, or another with the text that `%v` gives it.
pub data Value : Type 0 where
  text : String → Value
  int : ℤ → Value
  printed : String → Value

-- `fmt.Sprintf("%v", value)`
unfoldable pub sprint : Value → String
sprint (text s) = s
sprint (int n) = format n
sprint (printed s) = s

pub record KvEntry : Type 0 where
  pub value : String
  pub expiry : Option Time  -- `none` is the zero time

pub record ZMember : Type 0 where
  pub score : ℤ
  pub member : String

pub record StreamEntry : Type 0 where
  pub id : String
  pub values : Dict Value

pub record Message : Type 0 where
  pub channel : String
  pub pattern : String
  pub payload : String

-- A subscription, with what waits in its channel.
pub record MockSub : Type 0 where
  pub ch : List Message
  pub channels : List String
  pub done : Bool  -- whether `once` has run, so that the channel is closed

pub record PubSubState : Type 0 where
  pub subs : Dict (List ℕ)  -- channel to subscribers, by their place in `all`
  pub all : List MockSub  -- every subscription made, in order

pub record Mock : Type 0 where
  pub kv : Dict KvEntry
  pub hashes : Dict (Dict String)
  pub lists : Dict (List String)
  pub sets : Dict (Dict (Unit {0}))
  pub zsets : Dict (List ZMember)
  pub streams : Dict (List StreamEntry)
  pub groups : Dict (Dict ℕ)
  pub scripts : Dict String
  pub pubsub : PubSubState
  pub errors : Dict (List Error)
  pub calls : Dict ℕ
  pub stream_seq : ℤ
  pub closed : Bool

unfoldable pub new_mock : Mock
new_mock = record {
  kv = Dict.empty;
  hashes = Dict.empty;
  lists = Dict.empty;
  sets = Dict.empty;
  zsets = Dict.empty;
  streams = Dict.empty;
  groups = Dict.empty;
  scripts = Dict.empty;
  pubsub = record { subs = Dict.empty; all = [] };
  errors = Dict.empty;
  calls = Dict.empty;
  stream_seq = ℤ.pos 0;
  closed = false;
}

-- `entry.expired()`: `time.Now().After(e.expiry)`, unless the expiry is zero.
unfoldable pub expired : Time → KvEntry → Bool
expired now e = elim e.expiry [ none ↦ false | some t ↦ ltb_ℤ t now ]

unfoldable pub inject_error : String → Error → Mock → Mock
inject_error op e m = record m {
  errors = Dict.put m.errors op (Dict.get_or m.errors op [] ++ e ∷ []);
}

unfoldable pub clear_errors : Mock → Mock
clear_errors m = record m { errors = Dict.empty }

unfoldable pub call_count : String → Mock → ℕ
call_count op m = Dict.get_or m.calls op 0

unfoldable pub set_kv : String → String → Mock → Mock
set_kv key value m = record m { kv = Dict.put m.kv key (record { value = value; expiry = none }) }

unfoldable pub set_kv_with_ttl : String → String → Time → Mock → Mock
set_kv_with_ttl key value expiry m = record m {
  kv = Dict.put m.kv key (record { value = value; expiry = some expiry });
}

unfoldable pub set_hash : String → Dict String → Mock → Mock
set_hash key fields m = record m { hashes = Dict.put m.hashes key fields }

unfoldable pub push_list : String → List String → Mock → Mock
push_list key values m = record m {
  lists = Dict.put m.lists key (Dict.get_or m.lists key [] ++ values);
}

unfoldable pub add_all : List String → Dict (Unit {0}) → Dict (Unit {0})
add_all [] s = s
add_all (x ∷ xs) s = add_all xs (Dict.put s x tt)

unfoldable pub add_set : String → List String → Mock → Mock
unfolding add_all
add_set key members m = record m {
  sets = Dict.put m.sets key (add_all members (Dict.get_or m.sets key Dict.empty));
}

-- The errors queued for the operation, and those for all operations.
unfoldable pub raise_queued : String → Mock → List Error → List Error → Option Error × Mock
raise_queued op m (e ∷ q) all = (some e, record m { errors = Dict.put m.errors op q })
raise_queued op m [] (e ∷ q) = (some e, m)
raise_queued op m [] [] = (none, m)

-- `checkError`: the call is counted; an error injected for the operation is used up, one injected
-- for every operation stays.
unfoldable pub check_error : String → Mock → Option Error × Mock
check_error op m =
    raise_queued op (record m { calls = Dict.put m.calls op (suc (Dict.get_or m.calls op 0)) })
      (Dict.get_or m.errors op []) (Dict.get_or m.errors "" [])

-- What a command does behind the check.
unfoldable pub unless_raised {ℓ} :
    {A : Type ℓ} → (Mock → Result A × Mock) → Option Error × Mock → Result A × Mock
unless_raised body (none, m) = body m
unless_raised body (some e, m) = (err e, m)

-- The start of every command: with an injected error it returns that, and does no more.
unfoldable pub guarded {ℓ} :
    {A : Type ℓ} → String → (Mock → Result A × Mock) → Mock → Result A × Mock
unfolding unless_raised
guarded op body m = unless_raised body (check_error op m)

-- `getKV`: an expired entry is deleted.
unfoldable pub get_kv : Time → String → Mock → Option String × Mock
unfolding expired
get_kv now key m = elim (Dict.get m.kv key) [
  | none ↦ (none, m)
  | some e ↦
      if expired now e then (none, record m { kv = Dict.remove m.kv key }) else (some e.value, m)
]
