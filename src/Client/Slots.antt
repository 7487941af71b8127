-- ===== src/Client/Slots.antt =====
-- The slots of the admission controller, over whole operations.
use resilix.Prelude.{
  ℕ, zero, suc, ◌-◌, ◌≡◌, refl, Bool, true, false, Option, none, some, List, [], ◌∷◌, arith, inl,
  inr, sym, ap, ◌∙◌,
}
use resilix.Prelude.Int.{Duration, pos_part}
use resilix.Errors.{Error, Result}
use resilix.Retry.{
  World, Caller, Policy, do_, ask, succeed, fail, pause, round, attempts, go_on, Round-cases,
}
use resilix.Client.{
  Operation, Handler, RedisClient, chain, run_before, run_after, conclude, admit, pass, terminal,
  execute, error_of,
}

module _ {E : Type 0} (slots : E → ℕ) where
  -- A step, a handler, and a middleware that leave the number of slots in use as it was.
  abbrev pub Keeps : {B : Type 0} → (World E → B × World E) → Type 0
  Keeps f = (w : World E) → slots (f w).1.env ≡ slots w.env

  abbrev pub BeforeKeep : List (Operation → World E → Option Error × World E) → Type 0
  BeforeKeep [] = Unit {0}
  BeforeKeep (hook ∷ hooks) = ((op : Operation) → Keeps (hook op)) × BeforeKeep hooks

  abbrev pub AfterKeep : List (Operation → Option Error → World E → World E) → Type 0
  AfterKeep [] = Unit {0}
  AfterKeep (hook ∷ hooks) =
      ((op : Operation) (e : Option Error) (w : World E) → slots (hook op e w).env ≡ slots w.env)
      × AfterKeep hooks

  abbrev pub MiddlewareKeep : {A : Type 0} → List (Handler E A → Handler E A) → Type 0
  MiddlewareKeep [] = Unit {0}
  MiddlewareKeep (m ∷ ms) =
      ((h : Handler E _) → ((op : Operation) → Keeps (h op)) → (op : Operation) → Keeps (m h op))
      × MiddlewareKeep ms

  -- A slot is taken where the controller admits an operation, given back by its release function,
  -- and touched by nothing else.
  pub record Balanced {A : Type 0} (c : RedisClient E A) (k : Caller E A) : Type 0 where
    pub by_fn : Keeps k.fn
    pub by_backoff : (n : ℕ) → Keeps (k.backoff n)
    pub by_wait : (d : Duration) → Keeps (k.wait d)
    pub by_before : BeforeKeep c.before_execute
    pub by_after : AfterKeep c.after_execute
    pub by_middlewares : MiddlewareKeep c.middlewares
    pub by_begin : (op : Operation) (w : World E) → slots (c.begin op w).env ≡ slots w.env
    pub by_finish : (e : Option Error) (w : World E) → slots (c.finish e w).env ≡ slots w.env
    pub admitted :
        (op : Operation) (w : World E)
        → (c.acquire op w).0 ≡ none
        → slots (c.acquire op w).1.env ≡ suc (slots w.env)
    pub refused :
        (op : Operation) (w : World E) (e : Error)
        → (c.acquire op w).0 ≡ some e
        → slots (c.acquire op w).1.env ≡ slots w.env
    pub released : (w : World E) → slots (c.release w).env ≡ slots w.env - 1

module _ {E A : Type 0} (slots : E → ℕ) (c : RedisClient E A) (k : Caller E A)
    (h : Balanced slots c k) where
  round-slots : (p : Policy) (n : ℕ) → Keeps slots (round k p n)
  unfolding round succeed fail pause
  round-slots p n w =
      let w1 = (k.fn w).1 in
      let (d, w2) = k.backoff n w1 in ground (arith, h.by_fn w, h.by_backoff n w1, h.by_wait d w2)

  attempts-slots :
      (p : Policy) (left n : ℕ) (last : Option Error) → Keeps slots (attempts k p left n last)
  unfolding attempts go_on fail
  attempts-slots p zero n last w = refl
  attempts-slots p (suc left) n last w = elim (Round-cases (round k p n w).0) [
    | inl (r, e) ↦ ground (arith, round-slots p n w, e)
    | inr (x, e) ↦
        ground
          (arith, round-slots p n w, e, attempts-slots p left (suc n) (some x) (round k p n w).1)
  ]

  ask-slots : Keeps slots (ask k)
  unfolding ask
  ask-slots w = ground arith

  do-slots : (p : Policy) → Keeps slots (do_ k p)
  unfolding do_
  do-slots p w =
      ground (arith, ask-slots w, attempts-slots p (pos_part p.max_attempts) 1 none (ask k w).1)

  run_before-slots :
      (hooks : List (Operation → World E → Option Error × World E)) (op : Operation)
      (r : Option Error × World E)
      → BeforeKeep slots hooks
      → slots (run_before hooks op r).1.env ≡ slots r.1.env
  unfolding run_before
  run_before-slots [] op r b = refl
  run_before-slots (hook ∷ hooks) op (some e, w) b = refl
  run_before-slots (hook ∷ hooks) op (none, w) b =
      run_before-slots hooks op (hook op w) b.1 ∙ b.0 op w

  run_after-slots :
      (hooks : List (Operation → Option Error → World E → World E)) (op : Operation)
      (e : Option Error) (w : World E)
      → AfterKeep slots hooks
      → slots (run_after hooks op e w).env ≡ slots w.env
  unfolding run_after
  run_after-slots [] op e w b = refl
  run_after-slots (hook ∷ hooks) op e w b =
      run_after-slots hooks op e (hook op e w) b.1 ∙ b.0 op e w

  conclude-slots :
      (op : Operation) (r : Result (Option A)) (w : World E)
      → slots (conclude c k op (r, w)).1.env ≡ slots w.env - 1
  unfolding conclude
  conclude-slots op r w =
      let w1 = c.finish (error_of r) w in
      let w2 = run_after c.after_execute op (error_of r) w1 in
      let after = run_after-slots c.after_execute op (error_of r) w1 h.by_after in
      omega (arith, h.released w2, after, h.by_finish (error_of r) w)

  admit-slots :
      (op : Operation) (w : World E) (o : Option Error × World E)
      → c.acquire op w ≡ o
      → slots (admit c k op o).1.env ≡ slots w.env
  unfolding admit
  admit-slots op w (some e, w1) q =
      sym (ap (λ o. slots o.1.env) q) ∙ h.refused op w e (ap (λ o. o.0) q)
  admit-slots op w (none, w1) q =
      let taken = sym (ap (λ o. slots o.1.env) q) ∙ h.admitted op w (ap (λ o. o.0) q) in
      let (r, w2) = do_ k c.policy (c.begin op w1) in
      omega
        (arith, conclude-slots op r w2, do-slots c.policy (c.begin op w1), h.by_begin op w1, taken)

  pass-slots :
      (op : Operation) (r : Option Error × World E) → slots (pass c k op r).1.env ≡ slots r.1.env
  unfolding pass
  pass-slots op (some e, w) = refl
  pass-slots op (none, w) = admit-slots op w (c.acquire op w) refl

  terminal-slots : (op : Operation) → Keeps slots (terminal c k op)
  unfolding terminal
  terminal-slots op w =
      pass-slots op (run_before c.before_execute op (none, w))
      ∙ run_before-slots c.before_execute op (none, w) h.by_before

  chain-slots :
      (ms : List (Handler E A → Handler E A))
      → MiddlewareKeep slots ms
      → (op : Operation) → Keeps slots (chain ms (terminal c k) op)
  unfolding chain
  chain-slots [] b = terminal-slots
  chain-slots (m ∷ ms) b = b.0 (chain ms (terminal c k)) (chain-slots ms b.1)

  -- Every operation gives back the slot that it takes, whichever of the hooks, the admission, the
  -- breaker, the command or the wait makes it fail: as many are in use behind it as before it.
  pub execute-slots :
      (closed : Bool) (op : Operation) (w : World E)
      → slots (execute c k closed op w).1.env ≡ slots w.env
  unfolding execute
  execute-slots true op w = refl
  execute-slots false op w = chain-slots c.middlewares h.by_middlewares op w
