-- ===== src/Client/Failures.antt =====
-- What a caller learns from an error, and which breaker an accepted configuration gives.
use resilix.Prelude.{◌≡◌, refl, true, false, none, [], arith, Bool-cases, ◌∙◌, inl, inr}
use resilix.Prelude.Int.{ℤ, leb_ℤ, pos, ◌<ℤ◌}
use resilix.Errors.{
  Error, err, key_not_found, is_key_not_found, as_operation_error, wrap_operation_error,
}
use resilix.Breaker.{with_defaults}
use resilix.Options.{Floats, Options, normalize}
use resilix.Options.Normal.{normalize-IsFilled}
use resilix.Retry.{World, Caller, do_}
use resilix.Client.{
  Operation, RedisClient, breaker_config, normalize_public_error, run_before, execute, chain,
  terminal, pass, admit, conclude, map_error,
}

leb-pos : (x : ℤ) → pos 0 <ℤ x → leb_ℤ x (pos 0) ≡ false
leb-pos x h = ground arith

-- What execute makes of an error of the executor.
unfoldable pub public_error : Operation → Error → Error
public_error op e = wrap_operation_error op.name op.keys (normalize_public_error op e)

wrap-operation :
    (op : Operation) (e : Error)
    → as_operation_error (wrap_operation_error op.name op.keys e) ≡ true
unfolding wrap_operation_error as_operation_error
wrap-operation op e = ground arith

wrap-not_found :
    (op : Operation) (e : Error)
    → is_key_not_found (wrap_operation_error op.name op.keys e) ≡ is_key_not_found e
unfolding wrap_operation_error is_key_not_found
wrap-not_found op e = ground arith

public-not_found :
    (op : Operation) (e : Error) → is_key_not_found (public_error op e) ≡ is_key_not_found e
unfolding public_error normalize_public_error is_key_not_found
public-not_found op e = elim (Bool-cases (is_key_not_found e)) [
  | inl found ↦ rw found (wrap-not_found op key_not_found)
  | inr missing ↦
      rw missing
        (wrap-not_found op (wrap_operation_error op.name op.keys e) ∙ wrap-not_found op e ∙ missing)
]

-- An error of the executor reaches the caller as an OperationError, or as an error with one in its
-- chain, and `errors.Is` finds ErrKeyNotFound in it exactly where it finds it in the executor's
-- error. (The client is open, has no middleware, and its hooks and its admission let the operation
-- pass.)
pub execute_failure :
    {E A : Type 0} (c : RedisClient E A) (k : Caller E A) (op : Operation) (w w1 w2 : World E)
    (e : Error)
    → c.middlewares ≡ []
    → run_before c.before_execute op (none, w) ≡ (none, w1)
    → c.acquire op w1 ≡ (none, w2)
    → (do_ k c.policy (c.begin op w2)).0 ≡ err e
    → ((execute c k false op w).0 ≡ err (public_error op e))
      × (as_operation_error (public_error op e) ≡ true)
      × (is_key_not_found (public_error op e) ≡ is_key_not_found e)
unfolding execute chain terminal pass admit conclude map_error public_error
execute_failure c k op w w1 w2 e plain before free failed = (
  rw (plain, before, free, failed) refl,
  wrap-operation op (normalize_public_error op e),
  public-not_found op e,
)

-- The breaker of a client whose options Normalize has accepted runs with the options as they are:
-- New's own defaults do not come in. (2 is not below 1, and 0.2 is not below 0.)
pub with_defaults-breaker_config :
    {P F : Type 0} (fl : Floats F) (logger registry : P) (o : Options P F)
    → fl.below_one fl.two ≡ false
    → fl.negative fl.fifth ≡ false
    → (normalize fl logger registry o).0 ≡ none
    → with_defaults (breaker_config (normalize fl logger registry o).1)
      ≡ breaker_config (normalize fl logger registry o).1
unfolding with_defaults breaker_config
with_defaults-breaker_config fl logger registry o two fifth accepted =
    let (filled, _) = normalize-IsFilled fl logger registry two fifth o accepted in
    let threshold = leb-pos _ filled.failure_threshold in
    let timeout = leb-pos _ filled.open_timeout in
    let allowance = leb-pos _ filled.half_open_max_requests in
    rw (threshold, timeout, allowance) refl
