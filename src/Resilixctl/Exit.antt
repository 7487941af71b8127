-- ===== src/Resilixctl/Exit.antt =====
-- What the exit code 0 of the command line says: run of sdk/go/cmd/resilixctl/main.go.
use resilix.Prelude.{
  ℕ, ◌≡◌, refl, sym, ap, subst, ◌∙◌, String, false, Option, none, some, List, [], ◌∷◌, ◌++◌, arith,
}
use resilix.Errors.{Error, Result, ok, err}
use resilix.Breaker.{Breaker}
use resilix.Mock.Stubs.{PoolStats}
use resilix.Options.{Floats, Options}
use resilix.Config.Decoded.{Outside}
use resilix.Retry.{World}
use resilix.Services.{Session, Outcome}
use resilix.Services.Lifecycle.{Parts, HealthStatus, new_client, health, health_of, close}
use resilix.Resilixctl.{
  Flags, Line, plain, encoded, closing, ended, chosen, finish, checked_health, started, run,
}

ended-zero :
    (failure x : Option Error) (status : HealthStatus)
    → (ended failure x status).0 ≡ 0
    → (failure ≡ none) × (x ≡ none) × ((ended failure x status).1 ≡ encoded status ∷ [])
unfolding ended
ended-zero none none status h = (refl, refl, refl)
ended-zero (some e) none status h = ground (arith, h)
ended-zero none (some x) status h = ground (arith, h)
ended-zero (some e) (some x) status h = ground (arith, h)

abbrev code_of : Option (ℕ × List Line) → ℕ
code_of none = 1
code_of (some (code, lines)) = code

abbrev lines_of : Option (ℕ × List Line) → List Line
lines_of none = []
lines_of (some (code, lines)) = lines

abbrev text_of : Option (HealthStatus × Option Error) → String
text_of none = ""
text_of (some (status, e)) = status.status

-- The status of a client that has answered.
abbrev pub Healthy : {W : Type 0} → HealthStatus → Option (HealthStatus × Option Error) × W → Type 0
Healthy status h = (h.0 ≡ some (status, none)) × (status.status ≡ "ok")

module _ {E : Type 0} (c : Session E) where
  health_of-ok :
      (pool : PoolStats) (r : Outcome E (Unit {0})) (status : HealthStatus)
      → (health_of c pool r).0 ≡ some (status, none)
      → status.status ≡ "ok"
  unfolding health_of
  health_of-ok pool (none, w) status h = ground (arith, h)
  health_of-ok pool (some (err e), w) status h = ground (arith, h)
  health_of-ok pool (some (ok u), w) status h = sym (ap text_of h)

  health-ok :
      (record_pool : PoolStats → World E → World E) (w : World E) (status : HealthStatus)
      → (health c record_pool w).0 ≡ some (status, none)
      → Healthy status (health c record_pool w)
  unfolding health
  health-ok record_pool w status h = (h, health_of-ok (c.backend.pool_stats w) _ status h)

module _ {E P F : Type 0} (parts : Parts E P F) (fl : Floats F) (logger registry : P)
    (outside : Outside F) (record_pool : PoolStats → World E → World E)
    (encode : HealthStatus → Option Error) where
  -- What is behind a run that ends with 0, for a client in a state.
  pub record Ends (c : Session E) (w : World E) (lines : List Line) (over : World E) : Type 0 where
    pub status : HealthStatus
    pub healthy : Healthy status (health c record_pool w)
    pub is_encoded : encode status ≡ none
    pub output : lines ≡ encoded status ∷ closing (close c (health c record_pool w).1).0
    pub closed_last : over ≡ (close c (health c record_pool w).1).2

  finish-zero :
      (c : Session E) (h : Option (HealthStatus × Option Error) × World E) (lines : List Line)
      → (finish parts fl logger registry outside record_pool encode c h).0 ≡ some (0, lines)
      → (status : HealthStatus) × (h.0 ≡ some (status, none))
        × (encode status ≡ none)
        × (lines ≡ encoded status ∷ closing (close c h.1).0)
        × ((finish parts fl logger registry outside record_pool encode c h).1 ≡ (close c h.1).2)
  unfolding finish
  finish-zero c (none, w) lines e = ground (arith, e)
  finish-zero c (some (status, failure), w) lines e =
      let (fine, written, text) = ended-zero failure (encode status) status (ap code_of e) in
      (
        status,
        ap (λ f. some (status, f)) fine,
        written,
        sym (ap lines_of e) ∙ ap (λ l. l ++ closing (close c w).0) text,
        refl,
      )

  -- The end of a run that gave 0.
  module _ (lines : List Line) where
    checked-zero :
        (r : Result (Session E × Breaker)) (env : E) (w : World E)
        → (checked_health parts fl logger registry outside record_pool encode r env w).0
          ≡ some (0, lines)
        → (x : Session E × Breaker) × (r ≡ ok x)
          × Ends x.0
              (record { breaker = some x.1; env = env })
              lines
              (checked_health parts fl logger registry outside record_pool encode r env w).1
    unfolding checked_health
    checked-zero (err e) env w h = absurd (ground (arith, ap code_of h))
    checked-zero (ok (c, b)) env w h =
        let w0 : World E = record { breaker = some b; env = env } in
        let (status, found, written, output, last) =
          finish-zero c (health c record_pool w0) lines h in
        (
          (c, b),
          refl,
          record {
            status = status;
            healthy = health-ok c record_pool w0 status found;
            is_encoded = written;
            output = output;
            closed_last = last;
          },
        )

    started-zero :
        (r : Result (Options P F)) (w : World E)
        → (started parts fl logger registry outside record_pool encode r w).0 ≡ some (0, lines)
        → (o : Options P F) × (r ≡ ok o)
          × ((x : Session E × Breaker) × (new_client parts fl logger registry [] (plain o) ≡ ok x)
              × Ends x.0
                  (record { breaker = some x.1; env = w.env })
                  lines
                  (started parts fl logger registry outside record_pool encode r w).1)
    unfolding started
    started-zero (err e) w h = absurd (ground (arith, ap code_of h))
    started-zero (ok o) w h =
        (o, refl, checked-zero (new_client parts fl logger registry [] (plain o)) w.env w h)

  -- Options are loaded, and a client is made of them, which ends the run.
  abbrev pub Served : Flags → World E → List Line → World E → Type 0
  Served flags w lines over =
      (o : Options P F) × (chosen parts fl logger registry outside record_pool encode flags ≡ ok o)
      × ((x : Session E × Breaker) × (new_client parts fl logger registry [] (plain o) ≡ ok x)
          × Ends x.0 (record { breaker = some x.1; env = w.env }) lines over)

  -- A run that is not asked for the version exits with 0 only where the options are loaded, New makes
  -- a client of them, its health is "ok", without an error, and the status is encoded. The output is
  -- then the status, with the error of Close behind it if there is one, and the last thing that
  -- happens is that this client is closed.
  pub run-zero :
      (flags : Flags) (w : World E) (lines : List Line)
      → flags.show_version ≡ false
      → (run parts fl logger registry outside record_pool encode flags w).0 ≡ some (0, lines)
      → Served flags w lines (run parts fl logger registry outside record_pool encode flags w).1
  unfolding run
  run-zero flags w lines shown h =
      let begun =
        started parts fl logger registry outside record_pool encode
          (chosen parts fl logger registry outside record_pool encode flags) w in
      let same : run parts fl logger registry outside record_pool encode flags w ≡ begun =
        rw shown refl in
      subst (λ r. Served flags w lines r.1) (sym same)
        (started-zero lines (chosen parts fl logger registry outside record_pool encode flags) w
          (ap (λ r. r.0) (sym same) ∙ h))
