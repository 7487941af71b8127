-- ===== src/Config/Watch.antt =====
-- The watch of a configuration file: Watch of sdk/go/config/watch.go. What the goroutine receives is
-- a list of events, in order; the files and the environment are those of the time of an event. What
-- `onChange` does is a function of a state.
use resilix.Prelude.{
  ◌≡◌, refl, ap, ◌∙◌, String, Bool, true, false, ◌||◌, Option, none, some, List, [], ◌∷◌,
  if◌then◌else◌,
}
use resilix.Errors.{Error, Result, ok, err}
use resilix.Options.{Floats, Options}
use resilix.Options.Normal.{IsFilled}
use resilix.Config.Filled.{load_options-IsFilled}
use resilix.Config.Decoded.{Outside}
use resilix.Config.{Setting, load_options}

-- The bits of an `fsnotify.Op`.
pub record Op : Type 0 where
  pub create : Bool
  pub write : Bool
  pub remove : Bool
  pub rename : Bool
  pub chmod : Bool

-- A round of the select: the context is done, the events are closed, an error of the watcher, or an
-- event.
pub data Event (F : Type 0) : Type 0 where
  done : Event F
  no_more : Event F
  failing : Event F
  changed : Op → Outside F → Event F

-- `loadErr == nil && onChange != nil`
unfoldable pub tell : {A S : Type 0} → Option (A → S → S) → Result A → S → S
tell (some f) (ok options) s = f options s
tell (some f) (err e) s = s
tell none r s = s

module _ {P F S : Type 0} (fl : Floats F) (logger registry : P) (path env_prefix : String)
    (overrides : List (String × Setting)) (on_change : Option (Options P F → S → S)) where
  unfoldable pub watch_loop : List (Event F) → S → S
  unfolding tell
  watch_loop [] s = s
  watch_loop (done ∷ events) s = s
  watch_loop (no_more ∷ events) s = s
  watch_loop (failing ∷ events) s = watch_loop events s
  watch_loop (changed op outside ∷ events) s = watch_loop events (
      if op.write || op.create
      then tell on_change (load_options outside fl logger registry path env_prefix overrides) s
      else s)

  -- `new_watcher` and `add` are the errors of NewWatcher and of Add: the goroutine runs whatever Add
  -- returns.
  unfoldable pub watch : Option Error → Option Error → List (Event F) → S → Option Error × S
  unfolding watch_loop
  watch (some e) add events s = (some e, s)
  watch none add events s = (add, watch_loop events s)

-- The events that are handled: those in front of the end.
abbrev pub before_end : {F : Type 0} → List (Event F) → List (Event F)
before_end [] = []
before_end (done ∷ events) = []
before_end (no_more ∷ events) = []
before_end (failing ∷ events) = failing ∷ before_end events
before_end (changed op outside ∷ events) = changed op outside ∷ before_end events

abbrev pub put_ok : {A : Type 0} → Result A → List A → List A
put_ok (ok a) l = a ∷ l
put_ok (err e) l = l

-- Each of the options, in order.
abbrev pub each : {A S : Type 0} → (A → S → S) → List A → S → S
each f [] s = s
each f (a ∷ l) s = each f l (f a s)

abbrev pub All : {A : Type 0} → (A → Type 0) → List A → Type 0
All p [] = Unit {0}
All p (a ∷ l) = p a × All p l

tell-each :
    {A S : Type 0} (f : A → S → S) (b : Bool) (r : Result A) (l : List A) (s : S)
    → each f l (if b then tell (some f) r s else s) ≡ each f (if b then put_ok r l else l) s
unfolding tell
tell-each f false r l s = refl
tell-each f true (ok a) l s = refl
tell-each f true (err e) l s = refl

put_ok-All :
    {A : Type 0} (p : A → Type 0) (b : Bool) (r : Result A) (l : List A)
    → ((a : A) → r ≡ ok a → p a)
    → All p l
    → All p (if b then put_ok r l else l)
put_ok-All p false r l h rest = rest
put_ok-All p true (ok a) l h rest = (h a refl, rest)
put_ok-All p true (err e) l h rest = rest

module _ {P F : Type 0} (fl : Floats F) (logger registry : P) (path env_prefix : String)
    (overrides : List (String × Setting)) where
  -- What loads at the events that write or create the file.
  abbrev pub loadable : List (Event F) → List (Options P F)
  loadable [] = []
  loadable (changed op outside ∷ events) =
      if op.write || op.create
      then put_ok (load_options outside fl logger registry path env_prefix overrides)
          (loadable events)
      else loadable events
  loadable (e ∷ events) = loadable events

  module _ {S : Type 0} (f : Options P F → S → S) where
    loop-each :
        (events : List (Event F)) (s : S)
        → watch_loop fl logger registry path env_prefix overrides (some f) events s
          ≡ each f (loadable (before_end events)) s
    unfolding watch_loop
    loop-each [] s = refl
    loop-each (done ∷ events) s = refl
    loop-each (no_more ∷ events) s = refl
    loop-each (failing ∷ events) s = loop-each events s
    loop-each (changed op outside ∷ events) s =
        let r = load_options outside fl logger registry path env_prefix overrides in
        loop-each events (if op.write || op.create then tell (some f) r s else s)
        ∙ tell-each f (op.write || op.create) r (loadable (before_end events)) s

  module _ (two_big : fl.below_one fl.two ≡ false) (fifth_pos : fl.negative fl.fifth ≡ false) where
    loadable-All : (events : List (Event F)) → All (IsFilled fl) (loadable events)
    loadable-All [] = tt
    loadable-All (done ∷ events) = loadable-All events
    loadable-All (no_more ∷ events) = loadable-All events
    loadable-All (failing ∷ events) = loadable-All events
    loadable-All (changed op outside ∷ events) =
        put_ok-All (IsFilled fl) (op.write || op.create)
          (load_options outside fl logger registry path env_prefix overrides) (loadable events)
          (λ o h.
            load_options-IsFilled fl logger registry two_big fifth_pos outside path env_prefix
              overrides o h)
          (loadable-All events)

    -- Where a watcher is made, onChange is given, one after the other, the options that load at the
    -- events that write or create the file, up to the end of the context or of the events, and
    -- nothing at a file that does not load. Each of these is complete: no name, address or limit is
    -- missing. Watch returns the error of Add. (2 is not below 1, and 0.2 is not below 0.)
    pub watch-told :
        {S : Type 0} (f : Options P F → S → S) (add : Option Error) (events : List (Event F))
        (s : S)
        → (watch fl logger registry path env_prefix overrides (some f) none add events s
            ≡ (add, each f (loadable (before_end events)) s))
          × All (IsFilled fl) (loadable (before_end events))
    unfolding watch
    watch-told f add events s =
        (ap (λ x. (add, x)) (loop-each f events s), loadable-All (before_end events))
