-- ===== src/Services/Closed.antt =====
-- What a method of the services returns on a client that is closed.
pub mod Data
pub mod Sent
pub mod More
pub mod Batches
use resilix.Prelude.{String, ◌≡◌, refl, true, Option, none, some, List}
use resilix.Errors.{Error, err, client_closed}
use resilix.Retry.{World}
use resilix.Client.{execute}
use resilix.Contract.{Any, Command}
use resilix.Services.{Session, Outcome, send, checked, unbox}

-- A method with a check of its arguments: it returns the error of the check, else ErrClientClosed,
-- and leaves everything as it is.
abbrev pub Refuses : {E T : Type 0} → Option Error → (World E → Outcome E T) → Type 0
Refuses {E} check method =
    (w : World E) → method w ≡ (some (err (elim check [ none ↦ client_closed | some e ↦ e ])), w)

module _ {E : Type 0} (c : Session E) (h : c.closed ≡ true) where
  pub send-closed :
      {A U : Type 0} (name kind : String) (keys : List String) (box : A → Any)
      (command : Command (World E) A) (assert : Option Any → Option U)
      → Refuses none (send c name kind keys box command assert)
  unfolding send unbox execute
  send-closed name kind keys box command assert w = rw h refl

  pub checked-Refuses :
      {U : Type 0} (check : Option Error) (method : World E → Outcome E U)
      → Refuses none method
      → Refuses check (checked c check method)
  unfolding checked
  checked-Refuses none method refuses w = refuses w
  checked-Refuses (some e) method refuses w = refl

  pub checked-closed :
      {A U : Type 0} (check : Option Error) (name kind : String) (keys : List String)
      (box : A → Any) (command : Command (World E) A) (assert : Option Any → Option U)
      → Refuses check (checked c check (send c name kind keys box command assert))
  checked-closed check name kind keys box command assert =
      checked-Refuses check (send c name kind keys box command assert)
        (send-closed name kind keys box command assert)
