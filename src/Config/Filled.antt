-- ===== src/Config/Filled.antt =====
-- Options that come of a file: LoadOptions and BuildOptions of sdk/go/config/config.go.
use resilix.Prelude.{◌≡◌, refl, subst, ℕ, String, false, Option, none, some, List, arith}
use resilix.Prelude.Int.{pos, Duration}
use resilix.Errors.{Error, Result, ok, err}
use resilix.Options.{Floats, milliseconds, Options, normalize}
use resilix.Options.Normal.{IsFilled, normalize-IsFilled}
use resilix.Config.Decoded.{File, Outside}
use resilix.Config.{
  Setting, and_then, normalized, load, apply_env, apply_overrides, build_options,
  parse_duration_or_default, load_options,
}

and_then-end :
    {A B : Type 0} (r : Result A) (k : A → Result B) (b : B) (Q : Type 0)
    → ((a : A) → k a ≡ ok b → Q)
    → and_then r k ≡ ok b
    → Q
unfolding and_then
and_then-end (ok a) k b Q q h = q a h
and_then-end (err e) k b Q q h = absurd (ground (arith, h))

end-IsFilled :
    {P F : Type 0} {fl : Floats F} (r : Option Error × Options P F) (o : Options P F)
    → (r.0 ≡ none → IsFilled fl r.1)
    → normalized r ≡ ok o
    → IsFilled fl o
unfolding normalized
end-IsFilled {fl = fl} (none, x) o filled h = subst (IsFilled fl) (ground (arith, h)) (filled refl)
end-IsFilled (some e, x) o filled h = absurd (ground (arith, h))

module _ {P F : Type 0} (fl : Floats F) (logger registry : P)
    (two_big : fl.below_one fl.two ≡ false) (fifth_pos : fl.negative fl.fifth ≡ false) where
  normalized-IsFilled :
      (given o : Options P F)
      → normalized (normalize fl logger registry given) ≡ ok o
      → IsFilled fl o
  normalized-IsFilled given o h =
      end-IsFilled (normalize fl logger registry given) o
        (λ accepted. (normalize-IsFilled fl logger registry two_big fifth_pos given accepted).0) h

  build_options-IsFilled :
      (outside : Outside F) (f : File F) (o : Options P F)
      → build_options outside fl logger registry f ≡ ok o
      → IsFilled fl o
  unfolding build_options
  build_options-IsFilled outside f o =
      let read : String → ℕ → Result Duration =
        λ raw ms. parse_duration_or_default outside raw (milliseconds (pos ms)) in
      let Q = IsFilled fl o in
      and_then-end (read f.redis.dial_timeout 2000) _ o Q λ dial.
        and_then-end (read f.redis.read_timeout 500) _ o Q λ reading.
          and_then-end (read f.redis.write_timeout 500) _ o Q λ writing.
            and_then-end (read f.redis.max_conn_age 600000) _ o Q λ age.
              and_then-end (read f.redis.pool_timeout 1000) _ o Q λ pool.
                and_then-end (read f.redis.conn_max_idle_time 300000) _ o Q λ idle.
                  and_then-end (read f.retry.base_delay 25) _ o Q λ base.
                    and_then-end (read f.retry.max_delay 750) _ o Q λ longest.
                      and_then-end (read f.breaker.open_timeout 5000) _ o Q λ open_for.
                        and_then-end (read f.observability.slow_query_threshold 150) _ o Q
                          λ slow. normalized-IsFilled _ o

  -- Options that are loaded are filled in.
  pub load_options-IsFilled :
      (outside : Outside F) (path env_prefix : String) (overrides : List (String × Setting))
      (o : Options P F)
      → load_options outside fl logger registry path env_prefix overrides ≡ ok o
      → IsFilled fl o
  unfolding load_options
  load_options-IsFilled outside path env_prefix overrides o =
      and_then-end (load outside path) _ o (IsFilled fl o) λ f.
        build_options-IsFilled outside
          (apply_overrides outside overrides (apply_env outside env_prefix f)) o
