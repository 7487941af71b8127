-- ===== src/Services/Quiet.antt =====
-- A client without hooks and middleware, above a backend that does what a model of a store does.
use resilix.Prelude.{
  ℕ, suc, ◌≡◌, refl, sym, ap, ◌∙◌, false, Option, none, some, List, [], String, Option-cases, inl,
  inr, arith,
}
use resilix.Prelude.Int.{pos, Time}
use resilix.Errors.{Error, Result, ok}
use resilix.Breaker.{Breaker, closed, record_success}
use resilix.Breaker.Trip.{allow_closed}
use resilix.Retry.{World, Caller, ask, succeed}
use resilix.Retry.Outcomes.{do-success}
use resilix.Client.{
  Operation, chain, run_before, run_after, pass, admit, conclude, map_error, error_of, terminal,
  execute,
}
use resilix.Contract.{Any, Command}
use resilix.Services.{Session, boxed, caller, unbox, send}

-- The breaker, if there is one, is closed.
abbrev pub Calm : {E : Type 0} → World E → Type 0
Calm w = (b : Breaker) → w.breaker ≡ some b → b.state ≡ closed

-- What leaves the breaker alone, and what is seen of the store.
abbrev pub Keeps : {E S : Type 0} → (E → S) → World E → World E → Type 0
Keeps view w w' = (w'.breaker ≡ w.breaker) × (view w'.env ≡ view w.env)

-- An open client with no hooks and no middleware, with room for each call, whose telemetry keeps
-- away from the store. The executor makes at least one attempt.
pub record Quiet {E S : Type 0} (c : Session E) (view : E → S) : Type 0 where
  pub is_open : c.closed ≡ false
  pub no_before : c.client.before_execute ≡ []
  pub no_after : c.client.after_execute ≡ []
  pub no_middleware : c.client.middlewares ≡ []
  pub attempts : ℕ
  pub attempts_pos : c.client.policy.max_attempts ≡ pos (suc attempts)
  pub admits : (op : Operation) (w : World E) → (c.client.acquire op w).0 ≡ none
  pub acquire_keeps : (op : Operation) (w : World E) → Keeps view w (c.client.acquire op w).1
  pub begin_keeps : (op : Operation) (w : World E) → Keeps view w (c.client.begin op w)
  pub finish_keeps : (e : Option Error) (w : World E) → Keeps view w (c.client.finish e w)
  pub release_keeps : (w : World E) → Keeps view w (c.client.release w)

-- A command of the backend does to the store what the model does at the time of the clock.
abbrev pub Serves :
    {E S A : Type 0}
    → (E → Time)
    → (E → S)
    → Command (World E) A
    → (Time → S → Result A × S)
    → Type 0
Serves {E} now view command model =
    (w : World E)
    → ((command w).0 ≡ (model (now w.env) (view w.env)).0)
      × (view (command w).1.env ≡ (model (now w.env) (view w.env)).1)
      × ((command w).1.breaker ≡ w.breaker)

ask-on :
    {E A : Type 0} (k : Caller E A) (o : Option Breaker) (e : E)
    → ((b : Breaker) → o ≡ some b → b.state ≡ closed)
    → ask k (record { breaker = o; env = e }) ≡ (none, record { breaker = o; env = e })
unfolding ask
ask-on k none e calm = refl
ask-on k (some b) e calm = rw (allow_closed b (k.now e) (calm b refl)) refl

pub ask-Calm : {E A : Type 0} (k : Caller E A) (w : World E) → Calm w → ask k w ≡ (none, w)
ask-Calm k w calm = ask-on k w.breaker w.env calm

succeed-Calm : {E A : Type 0} (k : Caller E A) (w : World E) → Calm w → Calm (succeed k w)
unfolding succeed record_success
succeed-Calm k w calm b e = elim (Option-cases w.breaker) [
  | inl p ↦ ground (arith, p, e)
  | inr (b', p) ↦ ground (arith, p, e, calm b' p)
]

module _ {E S : Type 0} (c : Session E) (view : E → S) (quiet : Quiet c view) where
  -- Where the state is calm, and the command succeeds whatever the time is, the method returns its
  -- value, and leaves the store as the command does at some time, and the state calm.
  module _ {A U : Type 0} (box : A → Any) (command : Command (World E) A)
      (model : Time → S → Result A × S) (serves : Serves c.now view command model)
      (assert : Option Any → Option U) (name kind : String) (keys : List String) (w : World E)
      (calm : Calm w) where
    abbrev op : Operation
    op = record { name = name; kind = kind; keys = keys }

    abbrev begun : World E
    begun = c.client.begin op (c.client.acquire op w).1

    abbrev ran : World E
    ran = (command begun).1

    abbrev over : World E
    over = c.client.release (c.client.finish none (succeed (caller c box command) ran))

    begun-Keeps : Keeps view w begun
    begun-Keeps =
        let (b, s) = quiet.begin_keeps op (c.client.acquire op w).1 in
        let (b', s') = quiet.acquire_keeps op w in (b ∙ b', s ∙ s')

    begun-Calm : Calm begun
    begun-Calm b e = calm b (sym begun-Keeps.0 ∙ e)

    ran-Calm : Calm ran
    ran-Calm b e = begun-Calm b (sym (serves begun).2 ∙ e)

    over-Keeps : Keeps view (succeed (caller c box command) ran) over
    over-Keeps =
        let done = succeed (caller c box command) ran in
        let (b, s) = quiet.finish_keeps none done in
        let (b', s') = quiet.release_keeps (c.client.finish none done) in (b' ∙ b, s' ∙ s)

    over-Calm : Calm over
    over-Calm b e = succeed-Calm (caller c box command) ran ran-Calm b (sym over-Keeps.0 ∙ e)

    over-view : view over.env ≡ (model (c.now begun.env) (view w.env)).1
    over-view =
        let told : view (succeed (caller c box command) ran).env ≡ view ran.env =
          unfold succeed in refl in
        over-Keeps.1
        ∙ told
        ∙ (serves begun).1
        ∙ ap (λ s. (model (c.now begun.env) s).1) begun-Keeps.1

    execute-ran :
        (a : A)
        → (command begun).0 ≡ ok a
        → execute c.client (caller c box command) c.closed op w ≡ (ok (some (box a)), over)
    unfolding execute chain terminal run_before pass admit conclude map_error error_of run_after
        caller boxed
    execute-ran a e =
        let k = caller c box command in
        let run : k.fn (ask k begun).1 ≡ (ok (box a), ran) =
          rw (ask-Calm k begun begun-Calm, e) refl in
        rw (quiet.is_open, quiet.no_middleware, quiet.no_before, quiet.admits op w)
          (rw
            (do-success k c.client.policy quiet.attempts quiet.attempts_pos begun ran (box a)
              (ap (λ r. r.0) (ask-Calm k begun begun-Calm)) run)
            (rw quiet.no_after refl))

    served :
        (a : A) (u : U)
        → (command begun).0 ≡ ok a
        → assert (some (box a)) ≡ some u
        → send c name kind keys box command assert w ≡ (some (ok u), over)
    unfolding send unbox
    served a u e typed = rw (execute-ran a e, typed) refl

    -- The method returns the value that the model returns at some time of the clock, and leaves the
    -- store that the model leaves; where the model returns a value of the type asserted.
    pub send-served :
        (t : Time) × ((a : A) (u : U)
          → (model t (view w.env)).0 ≡ ok a
          → assert (some (box a)) ≡ some u
          → ((send c name kind keys box command assert w).0 ≡ some (ok u))
            × Calm (send c name kind keys box command assert w).1
            × (view (send c name kind keys box command assert w).1.env ≡ (model t (view w.env)).1))
    send-served = (
      c.now begun.env,
      λ a u e typed.
          let run : (command begun).0 ≡ ok a =
            (serves begun).0 ∙ ap (λ s. (model (c.now begun.env) s).0) begun-Keeps.1 ∙ e in
          rw (served a u run typed) (refl, over-Calm, over-view),
    )
