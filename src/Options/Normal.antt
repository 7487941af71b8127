-- ===== src/Options/Normal.antt =====
-- What holds of options behind Normalize.
use resilix.Prelude.{
  ◌≡◌, refl, String, false, Option, none, some, List, [], ◌∷◌, arith, str_eq, ap, inl, inr,
  Bool-cases, eq_iff, ◌⊎◌,
}
use resilix.Prelude.Int.{ℤ, pos, ◌≤ℤ◌, ◌<ℤ◌}
use resilix.Options.{
  Floats, Options, positive_or, nonneg_or, text_or, addrs_or, pointer_or, is_nil, is_empty,
  validate, fill, normalize,
}

positive_or-keep : (d x : ℤ) → pos 0 <ℤ x → positive_or d x ≡ x
unfolding positive_or
positive_or-keep d x h = ground arith

nonneg_or-keep : (d x : ℤ) → pos 0 ≤ℤ x → nonneg_or d x ≡ x
unfolding nonneg_or
nonneg_or-keep d x h = ground arith

text_or-filled : (d x : String) → str_eq d "" ≡ false → str_eq (text_or d x) "" ≡ false
unfolding text_or
text_or-filled d x h = elim (Bool-cases (str_eq x "")) [ inl e ↦ rw e h | inr e ↦ rw e e ]

text_or-keep : (d x : String) → str_eq x "" ≡ false → text_or d x ≡ x
unfolding text_or
text_or-keep d x h = rw h refl

addrs_or-keep : (d x : List String) → is_empty x ≡ false → addrs_or d x ≡ x
unfolding addrs_or is_empty
addrs_or-keep d [] h = absurd (ground arith)
addrs_or-keep d (a ∷ l) h = refl

pointer_or-keep : {P : Type 0} (d x : Option P) → is_nil x ≡ false → pointer_or d x ≡ x
unfolding pointer_or is_nil
pointer_or-keep d none h = absurd (ground arith)
pointer_or-keep d (some p) h = refl

module _ {P F : Type 0} (fl : Floats F) where
  -- What a client relies on: nothing is missing, and times, sizes and limits are positive.
  pub record IsFilled (o : Options P F) : Type 0 where
    pub name : str_eq o.name "" ≡ false
    pub mode : str_eq o.mode "" ≡ false
    pub addrs : is_empty o.addrs ≡ false
    pub dial_timeout : pos 0 <ℤ o.dial_timeout
    pub read_timeout : pos 0 <ℤ o.read_timeout
    pub write_timeout : pos 0 <ℤ o.write_timeout
    pub pool_size : pos 0 <ℤ o.pool_size
    pub min_idle_conns : pos 0 ≤ℤ o.min_idle_conns
    pub max_conn_age : pos 0 <ℤ o.max_conn_age
    pub pool_timeout : pos 0 <ℤ o.pool_timeout
    pub conn_max_idle_time : pos 0 <ℤ o.conn_max_idle_time
    pub max_inflight : pos 0 <ℤ o.max_inflight
    pub max_attempts : pos 0 <ℤ o.retry.max_attempts
    pub base_delay : pos 0 <ℤ o.retry.base_delay
    pub max_delay : pos 0 <ℤ o.retry.max_delay
    pub multiplier : fl.below_one o.retry.multiplier ≡ false
    pub jitter : fl.negative o.retry.jitter ≡ false
    pub failure_threshold : pos 0 <ℤ o.circuit_breaker.failure_threshold
    pub open_timeout : pos 0 <ℤ o.circuit_breaker.open_timeout
    pub half_open_max_requests : pos 0 <ℤ o.circuit_breaker.half_open_max_requests
    pub logger : is_nil o.observability.logger ≡ false
    pub registry : is_nil o.observability.registry ≡ false
    pub slow_query_threshold : pos 0 <ℤ o.observability.slow_query_threshold

-- The mode is one of the three, and sentinel mode names a master.
abbrev pub KnownMode : {P F : Type 0} → Options P F → Type 0
KnownMode o =
    (o.mode ≡ "standalone")
    ⊎ ((o.mode ≡ "cluster") ⊎ ((o.mode ≡ "sentinel") × (str_eq o.master_name "" ≡ false)))

validate-KnownMode :
    {P F : Type 0} (fl : Floats F) (logger registry : P) (o : Options P F)
    → validate fl logger registry o ≡ none
    → KnownMode o
unfolding validate
validate-KnownMode fl logger registry o h =
    ground (arith, eq_iff o.mode "standalone", eq_iff o.mode "cluster", eq_iff o.mode "sentinel")

module _ {P F : Type 0} (fl : Floats F) (logger registry : P)
    (two_big : fl.below_one fl.two ≡ false) (fifth_pos : fl.negative fl.fifth ≡ false) where
  fill-IsFilled : (o : Options P F) → IsFilled fl (fill fl logger registry o)
  unfolding fill positive_or nonneg_or text_or addrs_or pointer_or is_nil is_empty
  fill-IsFilled o = record {
    name = text_or-filled "resilix-go" o.name refl;
    mode = text_or-filled "standalone" o.mode refl;
    addrs = ground arith;
    dial_timeout = ground arith;
    read_timeout = ground arith;
    write_timeout = ground arith;
    pool_size = ground arith;
    min_idle_conns = ground arith;
    max_conn_age = ground arith;
    pool_timeout = ground arith;
    conn_max_idle_time = ground arith;
    max_inflight = ground arith;
    max_attempts = ground arith;
    base_delay = ground arith;
    max_delay = ground arith;
    multiplier = ground arith;
    jitter = ground arith;
    failure_threshold = ground arith;
    open_timeout = ground arith;
    half_open_max_requests = ground arith;
    logger = ground arith;
    registry = ground arith;
    slow_query_threshold = ground arith;
  }

  fill-keep : (o : Options P F) → IsFilled fl o → fill fl logger registry o ≡ o
  unfolding fill
  fill-keep o h =
      rw
        (
          text_or-keep "resilix-go" o.name h.name,
          text_or-keep "standalone" o.mode h.mode,
          addrs_or-keep ("127.0.0.1:6379" ∷ []) o.addrs h.addrs,
          nonneg_or-keep (pos 8) o.min_idle_conns h.min_idle_conns,
          h.multiplier,
          h.jitter,
          pointer_or-keep (some logger) o.observability.logger h.logger,
          pointer_or-keep (some registry) o.observability.registry h.registry,
          positive_or-keep (pos 2000000000) o.dial_timeout h.dial_timeout,
          positive_or-keep (pos 500000000) o.read_timeout h.read_timeout,
          positive_or-keep (pos 500000000) o.write_timeout h.write_timeout,
          positive_or-keep (pos 64) o.pool_size h.pool_size,
          positive_or-keep (pos 600000000000) o.max_conn_age h.max_conn_age,
          positive_or-keep (pos 1000000000) o.pool_timeout h.pool_timeout,
          positive_or-keep (pos 300000000000) o.conn_max_idle_time h.conn_max_idle_time,
          positive_or-keep (pos 1024) o.max_inflight h.max_inflight,
          positive_or-keep (pos 3) o.retry.max_attempts h.max_attempts,
          positive_or-keep (pos 25000000) o.retry.base_delay h.base_delay,
          positive_or-keep (pos 750000000) o.retry.max_delay h.max_delay,
          positive_or-keep (pos 5) o.circuit_breaker.failure_threshold h.failure_threshold,
          positive_or-keep (pos 5000000000) o.circuit_breaker.open_timeout h.open_timeout,
          positive_or-keep (pos 1) o.circuit_breaker.half_open_max_requests
              h.half_open_max_requests,
          positive_or-keep (pos 150000000) o.observability.slow_query_threshold
              h.slow_query_threshold,
        )
        refl

  -- Normalize fills in the options once: a second time it changes nothing and returns the same
  -- error, if any. (2 is not below 1, and 0.2 is not below 0.)
  pub normalize-again :
      (o : Options P F)
      → normalize fl logger registry (normalize fl logger registry o).1
        ≡ normalize fl logger registry o
  unfolding normalize
  normalize-again o =
      ap (λ o'. (validate fl logger registry o', o'))
        (fill-keep (fill fl logger registry o) (fill-IsFilled o))

  -- Options that Normalize accepts have nothing missing, and positive times, sizes and limits; and
  -- the mode is one of the three, in sentinel mode with a master's name. (2 is not below 1, and 0.2
  -- is not below 0.)
  pub normalize-IsFilled :
      (o : Options P F)
      → (normalize fl logger registry o).0 ≡ none
      → IsFilled fl (normalize fl logger registry o).1
        × KnownMode (normalize fl logger registry o).1
  unfolding normalize
  normalize-IsFilled o accepted =
      (fill-IsFilled o, validate-KnownMode fl logger registry (fill fl logger registry o) accepted)
