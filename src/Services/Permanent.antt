-- ===== src/Services/Permanent.antt =====
-- A command of a client at rest that fails with an error that the executor does not retry.
use resilix.Prelude.{◌≡◌, refl, sym, ap, ◌∙◌, false, Option, some}
use resilix.Errors.{Error, err}
use resilix.Retry.{World, ask, fail}
use resilix.Retry.Outcomes.{do-permanent}
use resilix.Client.{
  Operation, chain, run_before, run_after, pass, admit, conclude, map_error, error_of, terminal,
  execute,
}
use resilix.Client.Failures.{public_error}
use resilix.Contract.{Any, Command}
use resilix.Services.{Session, boxed, caller, unbox, send}
use resilix.Services.Quiet.{Calm, Quiet, ask-Calm}

-- The state in which the command is run.
abbrev pub begun : {E : Type 0} → Session E → Operation → World E → World E
begun c op w = c.client.begin op (c.client.acquire op w).1

-- The state that such a call leaves, where the command fails with `e` and leaves `w`.
abbrev pub failed :
    {E A : Type 0} → (c : Session E) → (A → Any) → Command (World E) A → Error → World E → World E
failed c box command e w =
    c.client.release (c.client.finish (some e) (fail (caller c box command) w))

module _ {E S : Type 0} (c : Session E) (view : E → S) (quiet : Quiet c view) where
  pub begun-Calm : (op : Operation) (w : World E) → Calm w → Calm (begun c op w)
  begun-Calm op w calm b e =
      calm b (
        sym ((quiet.begin_keeps op (c.client.acquire op w).1).0 ∙ (quiet.acquire_keeps op w).0) ∙ e)

  pub send-permanent :
      {A U : Type 0} (box : A → Any) (command : Command (World E) A)
      (assert : Option Any → Option U) (op : Operation) (w w' : World E) (e : Error)
      → Calm w
      → c.client.policy.classifier e ≡ false
      → command (begun c op w) ≡ (err e, w')
      → send c op.name op.kind op.keys box command assert w
        ≡ (some (err (public_error op e)), failed c box command e w')
  unfolding send unbox execute chain terminal run_before pass admit conclude map_error error_of
      run_after caller boxed public_error
  send-permanent box command assert op w w' e calm refuse run =
      let k = caller c box command in
      let free = ask-Calm k (begun c op w) (begun-Calm op w calm) in
      let ran : k.fn (ask k (begun c op w)).1 ≡ (err e, w') = rw (free, run) refl in
      rw (quiet.is_open, quiet.no_middleware, quiet.no_before, quiet.admits op w)
        (rw
          (do-permanent k c.client.policy quiet.attempts quiet.attempts_pos (begun c op w) w' e
            (ap (λ r. r.0) free) ran refuse)
          (rw quiet.no_after refl))
