-- ===== src/Config/Built.antt =====
-- The options that BuildOptions of sdk/go/config/config.go returns.
use resilix.Prelude.{
  String, ◌≡◌, refl, sym, subst, ap, ◌∙◌, Bool-cases, eq_iff, ◌⊎◌, inl, inr, Option, none, some,
  List, [], ◌∷◌, arith, str_eq, if◌then◌else◌,
}
use resilix.Prelude.Int.{pos, Duration}
use resilix.Errors.{Error, Result, ok, err}
use resilix.Options.{
  Floats, Options, default_options, positive_or, nonneg_or, text_or, addrs_or, fill, normalize,
  apply_core_defaults, apply_observability_defaults, apply_retry_defaults,
  apply_circuit_breaker_defaults, milliseconds,
}
use resilix.Config.Decoded.{File, Outside}
use resilix.Config.{
  and_then, set_or, addrs_in, normalized, parse_duration_or_default, settings, build_options,
}

and_then-ok :
    {A B : Type 0} (r : Result A) (f : A → Result B) (b : B)
    → and_then r f ≡ ok b
    → (a : A) × (r ≡ ok a) × (f a ≡ ok b)
unfolding and_then
and_then-ok (ok a) f b h = (a, refl, h)
and_then-ok (err e) f b h = absurd (ground (arith, h))

normalized-ok : {O : Type 0} (r : Option Error × O) (o : O) → normalized r ≡ ok o → r.1 ≡ o
unfolding normalized
normalized-ok (none, o') o h = ground (arith, h)
normalized-ok (some e, o') o h = absurd (ground (arith, h))

text_or-set_or : (d x : String) → text_or d (set_or d x x) ≡ text_or d x
unfolding text_or set_or
text_or-set_or d x = ground arith

addrs_or-addrs_in : (d l : List String) → addrs_or d (addrs_in d l) ≡ addrs_or d l
unfolding addrs_or addrs_in
addrs_or-addrs_in [] [] = refl
addrs_or-addrs_in (a ∷ d) [] = refl
addrs_or-addrs_in d (a ∷ l) = refl

module _ {F P : Type 0} (outside : Outside F) (fl : Floats F) (logger registry : P) where
  -- The duration of a text: that of the default where the text is empty, or where it has a duration
  -- that is not positive.
  abbrev Lasts : String → Duration → Duration → Type 0
  Lasts raw default d =
      ((raw ≡ "") × (d ≡ default))
      ⊎ ((x : Duration) × (outside.parse_duration raw ≡ ok x) × (d ≡ positive_or default x))

  -- What the options have of a file: an absent setting has the default, but for the number of idle
  -- connections and the jitter, which are zero.
  pub record Describes (f : File F) (o : Options P F) : Type 0 where
    pub name : o.name ≡ text_or "resilix-go" f.app.name
    pub mode : o.mode ≡ text_or "standalone" f.redis.mode
    pub addrs : o.addrs ≡ addrs_or ("127.0.0.1:6379" ∷ []) f.redis.addrs
    pub master_name : o.master_name ≡ f.redis.master_name
    pub db : o.db ≡ f.redis.db
    pub username : o.username ≡ f.redis.username
    pub password : o.password ≡ f.redis.password
    pub pool_size : o.pool_size ≡ positive_or (pos 64) f.redis.pool_size
    pub min_idle_conns : o.min_idle_conns ≡ nonneg_or (pos 8) f.redis.min_idle_conns
    pub max_inflight : o.max_inflight ≡ positive_or (pos 1024) f.runtime.max_inflight
    pub max_attempts : o.retry.max_attempts ≡ positive_or (pos 3) f.retry.max_attempts
    pub multiplier :
        o.retry.multiplier
        ≡ (if fl.below_one f.retry.multiplier then fl.two else f.retry.multiplier)
    pub jitter : o.retry.jitter ≡ (if fl.negative f.retry.jitter then fl.fifth else f.retry.jitter)
    pub failure_threshold :
        o.circuit_breaker.failure_threshold ≡ positive_or (pos 5) f.breaker.failure_threshold
    pub half_open_max_requests :
        o.circuit_breaker.half_open_max_requests
        ≡ positive_or (pos 1) f.breaker.half_open_max_requests
    pub dial_timeout : Lasts f.redis.dial_timeout (milliseconds (pos 2000)) o.dial_timeout
    pub read_timeout : Lasts f.redis.read_timeout (milliseconds (pos 500)) o.read_timeout
    pub write_timeout : Lasts f.redis.write_timeout (milliseconds (pos 500)) o.write_timeout
    pub max_conn_age : Lasts f.redis.max_conn_age (milliseconds (pos 600000)) o.max_conn_age
    pub pool_timeout : Lasts f.redis.pool_timeout (milliseconds (pos 1000)) o.pool_timeout
    pub conn_max_idle_time :
        Lasts f.redis.conn_max_idle_time (milliseconds (pos 300000)) o.conn_max_idle_time
    pub base_delay : Lasts f.retry.base_delay (milliseconds (pos 25)) o.retry.base_delay
    pub max_delay : Lasts f.retry.max_delay (milliseconds (pos 750)) o.retry.max_delay
    pub open_timeout :
        Lasts f.breaker.open_timeout (milliseconds (pos 5000)) o.circuit_breaker.open_timeout
    pub slow_query_threshold :
        Lasts f.observability.slow_query_threshold
          (milliseconds (pos 150))
          o.observability.slow_query_threshold

  parse-Lasts :
      (raw : String) (default d : Duration)
      → positive_or default default ≡ default
      → parse_duration_or_default outside raw default ≡ ok d
      → Lasts raw default (positive_or default d)
  unfolding parse_duration_or_default
  parse-Lasts raw default d keep h = elim (Bool-cases (str_eq raw "")) [
    | inl e ↦
        let blank : raw ≡ "" = ground (arith, e, eq_iff raw "") in
        let same : default ≡ d = ground (arith, e, h) in
        inl (blank, ap (positive_or default) (sym same) ∙ keep)
    | inr e ↦ inr (d, ground (arith, e, h), refl)
  ]

  -- Options that BuildOptions returns have the settings of the file. A setting that is absent (empty
  -- or zero) or out of range has its default, but for the number of idle connections and the jitter,
  -- which an absent setting makes zero; and the name of the master, the database and the
  -- credentials are those of the file.
  pub build_options-Describes :
      (f : File F) (o : Options P F)
      → build_options outside fl logger registry f ≡ ok o
      → Describes f o
  unfolding build_options settings default_options normalize fill apply_core_defaults
      apply_observability_defaults apply_retry_defaults apply_circuit_breaker_defaults
  build_options-Describes f o h =
      let read : String → Duration → Result Duration = parse_duration_or_default outside in
      let (d0, h0, r0) = and_then-ok (read f.redis.dial_timeout (milliseconds (pos 2000))) _ o h in
      let (d1, h1, r1) = and_then-ok (read f.redis.read_timeout (milliseconds (pos 500))) _ o r0 in
      let (d2, h2, r2) = and_then-ok (read f.redis.write_timeout (milliseconds (pos 500))) _ o r1 in
      let (d3, h3, r3) =
        and_then-ok (read f.redis.max_conn_age (milliseconds (pos 600000))) _ o r2 in
      let (d4, h4, r4) = and_then-ok (read f.redis.pool_timeout (milliseconds (pos 1000))) _ o r3 in
      let (d5, h5, r5) =
        and_then-ok (read f.redis.conn_max_idle_time (milliseconds (pos 300000))) _ o r4 in
      let (d6, h6, r6) = and_then-ok (read f.retry.base_delay (milliseconds (pos 25))) _ o r5 in
      let (d7, h7, r7) = and_then-ok (read f.retry.max_delay (milliseconds (pos 750))) _ o r6 in
      let (d8, h8, r8) =
        and_then-ok (read f.breaker.open_timeout (milliseconds (pos 5000))) _ o r7 in
      let (d9, h9, r9) =
        and_then-ok (read f.observability.slow_query_threshold (milliseconds (pos 150))) _ o r8 in
      let same = normalized-ok _ o r9 in
      subst (Describes f) same (record {
        name = text_or-set_or "resilix-go" f.app.name;
        mode = text_or-set_or "standalone" f.redis.mode;
        addrs = addrs_or-addrs_in ("127.0.0.1:6379" ∷ []) f.redis.addrs;
        master_name = refl;
        db = refl;
        username = refl;
        password = refl;
        pool_size = refl;
        min_idle_conns = refl;
        max_inflight = refl;
        max_attempts = refl;
        multiplier = refl;
        jitter = refl;
        failure_threshold = refl;
        half_open_max_requests = refl;
        dial_timeout =
            parse-Lasts f.redis.dial_timeout (milliseconds (pos 2000)) d0
              (unfold positive_or in refl) h0;
        read_timeout =
            parse-Lasts f.redis.read_timeout (milliseconds (pos 500)) d1
              (unfold positive_or in refl) h1;
        write_timeout =
            parse-Lasts f.redis.write_timeout (milliseconds (pos 500)) d2
              (unfold positive_or in refl) h2;
        max_conn_age =
            parse-Lasts f.redis.max_conn_age (milliseconds (pos 600000)) d3
              (unfold positive_or in refl) h3;
        pool_timeout =
            parse-Lasts f.redis.pool_timeout (milliseconds (pos 1000)) d4
              (unfold positive_or in refl) h4;
        conn_max_idle_time =
            parse-Lasts f.redis.conn_max_idle_time (milliseconds (pos 300000)) d5
              (unfold positive_or in refl) h5;
        base_delay =
            parse-Lasts f.retry.base_delay (milliseconds (pos 25)) d6 (unfold positive_or in refl)
              h6;
        max_delay =
            parse-Lasts f.retry.max_delay (milliseconds (pos 750)) d7 (unfold positive_or in refl)
              h7;
        open_timeout =
            parse-Lasts f.breaker.open_timeout (milliseconds (pos 5000)) d8
              (unfold positive_or in refl) h8;
        slow_query_threshold =
            parse-Lasts f.observability.slow_query_threshold (milliseconds (pos 150)) d9
              (unfold positive_or in refl) h9;
      })
