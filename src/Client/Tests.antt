-- ===== src/Client/Tests.antt =====
-- Operations of a client with two hooks and a middleware, whose state counts the slots in use.
use resilix.Prelude.{◌≤◌, ◌≡◌, ℕ, suc, ◌-◌, refl, true, false, none, [], ◌∷◌, arith}
use resilix.Prelude.Int.{pos}
use resilix.Errors.{err, key_not_found, canceled, is_key_not_found, as_operation_error}
use resilix.Retry.{World, Caller, new_policy, do_, default_classifier}
use resilix.Client.{Operation, RedisClient, execute, run_before}
use resilix.Client.Failures.{public_error, execute_failure}
use resilix.Client.Gate.{
  live_context, canceled_context, acquire_slot, is_live, refuse, made, admitted, refused,
  run-bounded,
}
use resilix.Client.Slots.{Balanced, execute-slots}

abbrev get_a : Operation
get_a = record { name = "GET"; kind = "kv"; keys = "a" ∷ [] }

-- The key is missing.
abbrev missing : Caller ℕ ℕ
missing = record {
  now = λ n. pos 0;
  fn = λ w. (err key_not_found, w);
  backoff = λ n w. (pos 1, w);
  wait = λ d w. (none, w);
}

abbrev client : RedisClient ℕ ℕ
client = record {
  policy = new_policy (pos 3) none;
  before_execute = (λ op w. (none, w)) ∷ [];
  after_execute = (λ op e w. w) ∷ [];
  middlewares = [];
  acquire = λ op w. (none, record w { env = suc w.env });
  release = λ w. record w { env = w.env - 1 };
  begin = λ op w. w;
  finish = λ e w. w;
}

-- Its middleware answers a canceled operation itself.
abbrev guarded_client : RedisClient ℕ ℕ
guarded_client = record client {
  middlewares = (λ next op w. next op w) ∷ (λ next op w. (err canceled, w)) ∷ [];
}

abbrev idle : World ℕ
idle = record { breaker = none; env = 5 }

guarded_client-Balanced : Balanced (λ n. n) guarded_client missing
guarded_client-Balanced = record {
  by_fn = λ w. refl;
  by_backoff = λ n w. refl;
  by_wait = λ d w. refl;
  by_before = (λ op w. refl, tt);
  by_after = (λ op e w. refl, tt);
  by_middlewares = (λ h keep op w. keep op w, (λ h keep op w. refl, tt));
  by_begin = λ op w. refl;
  by_finish = λ e w. refl;
  admitted = λ op w e. refl;
  refused = λ op w x e. absurd (ground arith);
  released = λ w. refl;
}

client-Balanced : Balanced (λ n. n) client missing
client-Balanced = record {
  by_fn = λ w. refl;
  by_backoff = λ n w. refl;
  by_wait = λ d w. refl;
  by_before = (λ op w. refl, tt);
  by_after = (λ op e w. refl, tt);
  by_middlewares = tt;
  by_begin = λ op w. refl;
  by_finish = λ e w. refl;
  admitted = λ op w e. refl;
  refused = λ op w x e. absurd (ground arith);
  released = λ w. refl;
}

slots_guarded : (execute guarded_client missing false get_a idle).1.env ≡ 5
slots_guarded =
    execute-slots (λ n. n) guarded_client missing guarded_client-Balanced false get_a idle

execute-slots_example : (execute client missing false get_a idle).1.env ≡ 5
execute-slots_example = execute-slots (λ n. n) client missing client-Balanced false get_a idle

execute_failure_example :
    ((execute client missing false get_a idle).0 ≡ err (public_error get_a key_not_found))
    × (as_operation_error (public_error get_a key_not_found) ≡ true)
    × (is_key_not_found (public_error get_a key_not_found) ≡ is_key_not_found key_not_found)
unfolding run_before do_ new_policy default_classifier
execute_failure_example =
    execute_failure client missing get_a idle idle (record { breaker = none; env = 6 })
      key_not_found refl refl refl refl

-- Two calls at a gate of one place, of which the second is canceled while it waits.
abbrev one : ℕ
one = 1

run-bounded_example : (one ≡ one) × (one ≤ one)
unfolding acquire_slot is_live refuse
run-bounded_example =
    run-bounded 1 1 1 (
      refused 1 1 1 canceled_context true canceled (admitted 0 1 0 live_context true made refl)
        refl)
