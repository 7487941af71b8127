-- ===== src/Mock/PubSub/Closing.antt =====
-- What the close of the backend does while a subscription is open.
use resilix.Prelude.{
  ℕ, ◌≡◌, refl, ap, ◌∙◌, String, Bool, true, false, ◌||◌, ◌==◌, none, some, List, [], ◌∷◌, ◌++◌,
  arith, length, get_elem?, eq_refl, str_eq, if◌then◌else◌, Option-cases, inl, inr,
}
use resilix.Dict
use resilix.Dict.{Dict, lookup, get_or_lem}
use resilix.Mock.{Mock, MockSub, PubSubState}
use resilix.Mock.Injected.{NoError, guarded-body}
use resilix.Mock.PubSub.{
  subs_at, subscribe_each, subscribe, is_done, shut, sub_close, close_each, all_ids, close,
}

unfoldable mem : ℕ → List ℕ → Bool
mem i [] = false
mem i (j ∷ js) = j == i || mem i js

-- The subscription of the place is open.
abbrev IsOpen : ℕ → PubSubState → Type 0
IsOpen i p = is_done (get_elem? p.all i) ≡ false

close_each-open :
    (ids : List ℕ) (i : ℕ) (p : PubSubState)
    → mem i ids ≡ true
    → IsOpen i p
    → close_each ids p ≡ none
unfolding mem close_each sub_close shut
close_each-open [] i p h o = absurd (ground arith)
close_each-open (j ∷ js) i p h o = ground (arith, close_each-open js i p)

mem-append : (i : ℕ) (is js : List ℕ) → mem i (is ++ js) ≡ (mem i is || mem i js)
unfolding mem
mem-append i [] js = refl
mem-append i (k ∷ is) js = ground (arith, mem-append i is js)

mem-all_ids :
    (i : ℕ) (c : String) (l : List (String × List ℕ)) (is : List ℕ)
    → lookup c l ≡ some is
    → mem i is ≡ true
    → mem i (all_ids l) ≡ true
unfolding all_ids lookup
mem-all_ids i c [] is e h = absurd (ground arith)
mem-all_ids i c ((d, js) ∷ l) is e h =
    ground (arith, mem-append i js (all_ids l), mem-all_ids i c l is)

-- The subscription of the place is registered for the channel.
abbrev Registered : ℕ → String → PubSubState → Type 0
Registered i c p = mem i (subs_at p c) ≡ true

subs_at-put :
    (p : PubSubState) (c d : String) (is : List ℕ)
    → subs_at (record p { subs = Dict.put p.subs c is }) d
      ≡ (if str_eq c d then is else subs_at p d)
subs_at-put p c d is =
    get_or_lem (Dict.put p.subs c is) d []
    ∙ ground (arith, Dict.get-put p.subs c d is, get_or_lem p.subs d [])

added :
    (i : ℕ) (c d : String) (p : PubSubState)
    → Registered i c p
    → mem i (if str_eq d c then subs_at p d ++ i ∷ [] else subs_at p c) ≡ true
unfolding mem
added i c d p h = ground (arith, mem-append i (subs_at p d) (i ∷ []))

subscribe_each-Registered :
    (i : ℕ) (cs : List String) (c : String) (p : PubSubState)
    → Registered i c p
    → Registered i c (subscribe_each i cs p)
unfolding subscribe_each
subscribe_each-Registered i [] c p h = h
subscribe_each-Registered i (d ∷ cs) c p h =
    let is = subs_at p d ++ i ∷ [] in
    subscribe_each-Registered i cs c (record p { subs = Dict.put p.subs d is })
      (rw (subs_at-put p d c is) (added i c d p h))

subscribe_each-all :
    (i : ℕ) (cs : List String) (p : PubSubState) → (subscribe_each i cs p).all ≡ p.all
unfolding subscribe_each
subscribe_each-all i [] p = refl
subscribe_each-all i (d ∷ cs) p = subscribe_each-all i cs _

get_elem?-last : {A : Type 0} (l : List A) (x : A) → get_elem? (l ++ x ∷ []) (length l) ≡ some x
get_elem?-last [] x = refl
get_elem?-last (y ∷ l) x = get_elem?-last l x

Registered-all_ids :
    (i : ℕ) (c : String) (p : PubSubState)
    → Registered i c p
    → mem i (all_ids p.subs.entries) ≡ true
unfolding mem Dict.get_or Dict.get
Registered-all_ids i c p h = elim (Option-cases (lookup c p.subs.entries)) [
  | inl none_there ↦ absurd (ground (arith, none_there))
  | inr (is, there) ↦ mem-all_ids i c p.subs.entries is there (ground (arith, there))
]

close-open :
    (i : ℕ) (c : String) (m : Mock) → Registered i c m.pubsub → IsOpen i m.pubsub → close m ≡ none
unfolding close
close-open i c m r o =
    rw
      (
        close_each-open (all_ids m.pubsub.subs.entries) i m.pubsub
            (Registered-all_ids i c m.pubsub r) o,
        close,
      )
      refl

subscribe_each-first :
    (i : ℕ) (c : String) (cs : List String) (p : PubSubState)
    → Registered i c (subscribe_each i (c ∷ cs) p)
unfolding subscribe_each mem
subscribe_each-first i c cs p =
    let is = subs_at p c ++ i ∷ [] in
    subscribe_each-Registered i cs c (record p { subs = Dict.put p.subs c is })
      (rw (subs_at-put p c c is, eq_refl c) (ground (arith, mem-append i (subs_at p c) (i ∷ []))))

subscribe_each-IsOpen :
    (cs : List String) (p : PubSubState) (s : MockSub)
    → s.done ≡ false
    → IsOpen (length p.all) (subscribe_each (length p.all) cs (record p { all = p.all ++ s ∷ [] }))
subscribe_each-IsOpen cs p s fresh =
    let p0 : PubSubState = record p { all = p.all ++ s ∷ [] } in
    ap (λ l. is_done (get_elem? l (length p.all))) (subscribe_each-all (length p.all) cs p0)
    ∙ ap is_done (get_elem?-last p.all s)
    ∙ (unfold is_done in fresh)

-- `Close` on a backend on which a subscription is open: its goroutine waits for ever for
-- `pubsub.mu`, which it holds. (The subscription was just made, for one channel or more, and no
-- error is injected.)
pub close-subscribe :
    (c : String) (cs : List String) (m : Mock)
    → NoError "Subscribe" m
    → close (subscribe (c ∷ cs) m).1 ≡ none
unfolding subscribe
close-subscribe c cs m h =
    let i = length m.pubsub.all in
    let s : MockSub = record { ch = []; channels = c ∷ cs; done = false } in
    rw (guarded-body "Subscribe" _ m h) (
      close-open i c _
        (subscribe_each-first i c cs (record m.pubsub { all = m.pubsub.all ++ s ∷ [] }))
        (subscribe_each-IsOpen (c ∷ cs) m.pubsub s refl))
