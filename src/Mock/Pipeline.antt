-- ===== src/Mock/Pipeline.antt =====
-- Pipeline, Transaction and execCommands of sdk/go/resilixtest/mock.go, over the commands that
-- sdk/go/internal/contract/types.go declares. The clock is read once for the whole run.
use resilix.Prelude.{ℕ, String, Bool, Option, List, [], ◌∷◌, str_eq, if◌then◌else◌}
use resilix.Prelude.Int.{ℤ, Time, Duration}
use resilix.Errors.{Result, ok, err, unsupported_command, wrapped}
use resilix.Dict.{Dict}
use resilix.Mock.{Mock, Value, ZMember, guarded}
use resilix.Mock.Kv.{get, set, del, incr, decr, expire, mset}
use resilix.Mock.Hash.{hset}
use resilix.Mock.Sets.{sadd}
use resilix.Mock.Zset.{zadd}

pub record PipelineCommand : Type 0 where
  pub name : String
  pub key : String
  pub keys : List String
  pub value : Value
  pub values : Dict Value
  pub ttl : Duration
  pub members : List String
  pub zmembers : List ZMember
  pub stream_values : Dict Value
  pub max_len : ℤ
  pub approximate : Bool

-- The value of a result: nil, or what the command returned. (The last five only a driver returns.)
pub data Reply : Type 0 where
  nil : Reply
  str : String → Reply
  count : ℕ → Reply
  int : ℤ → Reply
  bool : Bool → Reply
  float : ℤ → Reply
  strings : List String → Reply
  fields : Dict String → Reply
  zmembers : List ZMember → Reply
  values : List (Option String) → Reply

pub record CommandResult : Type 0 where
  pub name : String
  pub key : String
  pub result : Result Reply

unfoldable pub reply {ℓ} : {A : Type ℓ} → (A → Reply) → Result A × Mock → Result Reply × Mock
reply f (ok a, m) = (ok (f a), m)
reply f (err e, m) = (err e, m)

-- The switch on the command's name.
unfoldable pub exec_one : Time → PipelineCommand → Mock → Result Reply × Mock
unfolding reply
exec_one now cmd m =
    if str_eq cmd.name "SET"
    then reply (λ u. nil) (set now cmd.key cmd.value cmd.ttl m)
    else if str_eq cmd.name "GET"
    then reply (λ s. str s) (get now cmd.key m)
    else if str_eq cmd.name "DEL"
    then reply (λ n. count n) (del now cmd.keys m)
    else if str_eq cmd.name "INCR"
    then reply (λ n. int n) (incr now cmd.key m)
    else if str_eq cmd.name "DECR"
    then reply (λ n. int n) (decr now cmd.key m)
    else if str_eq cmd.name "EXPIRE"
    then reply (λ b. bool b) (expire now cmd.key cmd.ttl m)
    else if str_eq cmd.name "HSET"
    then reply (λ n. count n) (hset cmd.key cmd.values m)
    else if str_eq cmd.name "SADD"
    then reply (λ n. count n) (sadd cmd.key cmd.members m)
    else if str_eq cmd.name "ZADD"
    then reply (λ n. count n) (zadd cmd.key cmd.zmembers m)
    else if str_eq cmd.name "MSET"
    then reply (λ u. nil) (mset cmd.values m)
    else (err (wrapped unsupported_command cmd.name), m)

unfoldable pub exec_commands : Time → List PipelineCommand → Mock → List CommandResult × Mock
exec_commands now [] m = ([], m)
exec_commands now (cmd ∷ cmds) m =
    let (r, m1) = exec_one now cmd m in
    let (rs, m2) = exec_commands now cmds m1 in
    (record { name = cmd.name; key = cmd.key; result = r } ∷ rs, m2)

unfoldable pub pipeline : Time → List PipelineCommand → Mock → Result (List CommandResult) × Mock
unfolding exec_commands
pipeline now cmds = guarded "Pipeline" λ m. let (rs, m') = exec_commands now cmds m in (ok rs, m')

-- The watched keys are not read.
unfoldable pub transaction : Time → List PipelineCommand → Mock → Result (List CommandResult) × Mock
unfolding exec_commands
transaction now cmds =
    guarded "Transaction" λ m. let (rs, m') = exec_commands now cmds m in (ok rs, m')
