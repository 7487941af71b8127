-- ===== src/Telemetry/Registry.antt =====
-- The registration of the metrics: New of sdk/go/internal/telemetry/recorder.go and the functions
-- that it calls. A collector is a reference to a metric; the registry belongs to Prometheus, so that
-- its Register is an argument. Of the values only the gauge of the breaker's state is kept, which is
-- the one that New sets.
use resilix.Prelude.{
  ℕ, ◌+◌, ◌==◌, String, Bool, true, false, Option, none, some, List, [], ◌∷◌, if◌then◌else◌,
}
use resilix.Prelude.Int.{ℤ, pos}
use resilix.Errors.{Error}
use resilix.Dict
use resilix.Dict.{Dict}

pub data Kind : Type 0 where
  counter_vec histogram_vec gauge_vec gauge : Kind

pub record Collector : Type 0 where
  pub kind : Kind
  pub name : String
  pub id : ℕ

-- What Register returns beside nil: an AlreadyRegisteredError with the collector that is there, or
-- another error.
pub data RegisterError : Type 0 where
  already_registered : Collector → RegisterError
  not_registered : Error → RegisterError

abbrev pub Register : Type 0 → Type 0
Register R = Collector → R → Option RegisterError × R

-- The type assertion on the collector that is there.
unfoldable pub has_kind : Kind → Kind → Bool
has_kind counter_vec counter_vec = true
has_kind histogram_vec histogram_vec = true
has_kind gauge_vec gauge_vec = true
has_kind gauge gauge = true
has_kind _ _ = false

unfoldable pub kept : {R : Type 0} → Collector → Option RegisterError × R → Collector × R
unfolding has_kind
kept c (none, r) = (c, r)
kept c (some (already_registered existing), r) =
    (if has_kind c.kind existing.kind then existing else c, r)
kept c (some (not_registered e), r) = (c, r)

-- registerCounterVec, registerHistogramVec, registerGauge and registerGaugeVec, by the kind of the
-- collector.
unfoldable pub register_one : {R : Type 0} → Register R → Collector → R → Collector × R
unfolding kept
register_one register c r = kept c (register c r)

-- The calls of New, one after the other.
unfoldable pub register_all : {R : Type 0} → Register R → List Collector → R → List Collector × R
unfolding register_one
register_all register [] r = ([], r)
register_all register (c ∷ cs) r =
    let (x, r1) = register_one register c r in
    let (xs, r2) = register_all register cs r1 in (x ∷ xs, r2)

-- The metrics that New makes, with the numbers from `n` on.
abbrev pub made_from : ℕ → List Collector
made_from n =
    record { kind = counter_vec; name = "operations_total"; id = n }
    ∷ (record { kind = histogram_vec; name = "operation_duration_seconds"; id = n + 1 }
        ∷ (record { kind = gauge; name = "inflight_operations"; id = n + 2 }
            ∷ (record { kind = counter_vec; name = "slow_queries_total"; id = n + 3 }
                ∷ (record { kind = gauge_vec; name = "circuit_breaker_state"; id = n + 4 }
                    ∷ (record { kind = gauge; name = "pool_hits_total"; id = n + 5 }
                        ∷ (record { kind = gauge; name = "pool_misses_total"; id = n + 6 }
                            ∷ (record { kind = gauge; name = "pool_timeouts_total"; id = n + 7 }
                                ∷ (record { kind = gauge; name = "pool_total_conns"; id = n + 8 }
                                    ∷ []))))))))

-- The number of the gauge of the breaker's state, the fifth of them.
abbrev pub breaker_gauge : List Collector → ℕ
breaker_gauge (c1 ∷ c2 ∷ c3 ∷ c4 ∷ c5 ∷ cs) = c5.id
breaker_gauge _ = 0

-- The registry, the number of metrics made, and the labels of each gauge with them.
pub record Process (R : Type 0) : Type 0 where
  pub registry : R
  pub made : ℕ
  pub labels : ℕ → Dict ℤ

-- `WithLabelValues("closed").Set(1)`, and the two zeros.
unfoldable pub initial : Dict ℤ → Dict ℤ
initial d = Dict.put (Dict.put (Dict.put d "closed" (pos 1)) "open" (pos 0)) "half_open" (pos 0)

-- The end of New, with the metrics that are registered.
unfoldable pub shown_first :
    {R : Type 0} → Process R → List Collector × R → List Collector × Process R
unfolding initial
shown_first p (metrics, r) = (
  metrics,
  record {
    registry = r;
    made = p.made + 9;
    labels = λ i. if i == breaker_gauge metrics then initial (p.labels i) else p.labels i;
  },
)

unfoldable pub new_metrics : {R : Type 0} → Register R → Process R → List Collector × Process R
unfolding register_all shown_first
new_metrics register p = shown_first p (register_all register (made_from p.made) p.registry)
