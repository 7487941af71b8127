-- ===== src/Mock/Injected.antt =====
-- The injected errors: what `checkError` returns, and a command that has none to return.
use resilix.Prelude.{
  ℕ, zero, suc, String, ◌≡◌, refl, false, Option, none, some, List, [], ◌∷◌, ◌++◌, map, length,
  append_assoc, append-nil, eq_refl, str_eq, sym, ◌∙◌, ap,
}
use resilix.Errors.{Error, Result}
use resilix.Dict
use resilix.Dict.{dict_laws, get_or_lem}
use resilix.Mock.{raise_queued, Mock, check_error, guarded, inject_error}

-- No error is injected for the operation, nor for all of them.
abbrev pub NoError : String → Mock → Type 0
NoError op m = (Dict.get_or m.errors op [] ≡ []) × (Dict.get_or m.errors "" [] ≡ [])

-- The state with one more call of the operation counted.
abbrev pub counted : String → Mock → Mock
counted op m = record m { calls = Dict.put m.calls op (suc (Dict.get_or m.calls op 0)) }

pub check_error-none :
    (op : String) (m : Mock) → NoError op m → check_error op m ≡ (none, counted op m)
unfolding check_error
check_error-none op m h = rw (h.0, h.1) (unfold raise_queued in refl)

pub guarded-body {ℓ} :
    {A : Type ℓ} (op : String) (body : Mock → Result A × Mock) (m : Mock)
    → NoError op m
    → guarded op body m ≡ body (counted op m)
unfolding guarded
guarded-body op body m h = rw (check_error-none op m h)

pub inject_all : String → List Error → Mock → Mock
inject_all op [] m = m
inject_all op (e ∷ es) m = inject_all op es (inject_error op e m)

-- The errors of calls of the operation, one behind the other.
pub errors_of : String → ℕ → Mock → List (Option Error)
errors_of op zero m = []
errors_of op (suc n) m = (check_error op m).0 ∷ errors_of op n (check_error op m).1

abbrev queue : String → Mock → List Error
queue op m = Dict.get_or m.errors op []

queue-inject_error :
    (op : String) (e : Error) (m : Mock) → queue op (inject_error op e m) ≡ queue op m ++ e ∷ []
unfolding inject_error
queue-inject_error op e m =
    get_or_lem _ op [] ∙ rw (Dict.get-put m.errors op op (queue op m ++ e ∷ []), eq_refl op)

queue-inject_all :
    (op : String) (es : List Error) (m : Mock) → queue op (inject_all op es m) ≡ queue op m ++ es
unfolding inject_all
queue-inject_all op [] m = sym (append-nil (queue op m))
queue-inject_all op (e ∷ es) m =
    queue-inject_all op es (inject_error op e m)
    ∙ rw (queue-inject_error op e m) (append_assoc (queue op m) (e ∷ []) es)

all-inject_error :
    (op : String) (e : Error) (m : Mock)
    → str_eq op "" ≡ false
    → queue "" (inject_error op e m) ≡ queue "" m
unfolding inject_error
all-inject_error op e m ne =
    get_or_lem _ "" []
    ∙ rw (Dict.get-put m.errors op "" (queue op m ++ e ∷ []), ne) (sym (get_or_lem m.errors "" []))

all-inject_all :
    (op : String) (es : List Error) (m : Mock)
    → str_eq op "" ≡ false
    → queue "" (inject_all op es m) ≡ queue "" m
unfolding inject_all
all-inject_all op [] m ne = refl
all-inject_all op (e ∷ es) m ne =
    all-inject_all op es (inject_error op e m) ne ∙ all-inject_error op e m ne

drain :
    (op : String) (es : List Error) (m : Mock)
    → str_eq op "" ≡ false
    → queue op m ≡ es
    → queue "" m ≡ []
    → errors_of op (suc (length es)) m ≡ map (λ e. some e) es ++ none ∷ []
unfolding errors_of
drain op [] m ne q all = rw (check_error-none op m (q, all))
drain op (e ∷ es) m ne q all =
    let m' = record m {
      calls = Dict.put m.calls op (suc (Dict.get_or m.calls op 0));
      errors = Dict.put m.errors op es;
    } in
    let step : check_error op m ≡ (some e, m') =
      unfold check_error in rw (q, all) (unfold raise_queued in refl) in
    rw step (
      ap (λ l. some e ∷ l)
        (drain op es m' ne (get_or_lem _ op [] ∙ rw (Dict.get-put m.errors op op es, eq_refl op)) (
          get_or_lem _ "" []
          ∙ rw (Dict.get-put m.errors op "" es, ne) (sym (get_or_lem m.errors "" []) ∙ all))))

-- Errors injected for an operation come out of its next calls in the order of their injection, one
-- for each call, and the call behind them finds none. (Nothing was injected before for it, nor for
-- all operations.)
pub errors_of-inject_all :
    (op : String) (es : List Error) (m : Mock)
    → str_eq op "" ≡ false
    → NoError op m
    → errors_of op (suc (length es)) (inject_all op es m) ≡ map (λ e. some e) es ++ none ∷ []
errors_of-inject_all op es m ne h =
    drain op es (inject_all op es m) ne (queue-inject_all op es m ∙ rw h.0)
      (all-inject_all op es m ne ∙ h.1)
