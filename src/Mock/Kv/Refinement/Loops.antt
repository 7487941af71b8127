-- ===== src/Mock/Kv/Refinement/Loops.antt =====
-- The loops of MGet, Del and Exists of sdk/go/resilixtest/mock.go against the store.
use resilix.Prelude.{◌+◌, String, ◌≡◌, refl, ap, ap₂, ◌∙◌, Option, none, List, [], ◌∷◌, map, arith}
use resilix.Prelude.Int.{Time}
use resilix.Mock.{Mock, get_kv}
use resilix.Mock.Kv.{get_each, del_one, del_each, exists_one, exists_each}
use resilix.Mock.Kv.Views.{fresh, value_of, is_some, live_count}
use resilix.Mock.Kv.Reads.{get_kv-errors}
use resilix.Mock.Kv.Refinement.{
  Store, assign, Refines, get_kv-seen, get_kv-Refines, del_one-Refines,
}
use resilix.Mock.Kv.Refinement.Replay.{erase_each}

-- The state refines the store and has the errors of another.
abbrev pub Kept : Time → Mock → Mock → Store → Type 0
Kept now m m' s = Refines now m' s × (m'.errors ≡ m.errors)

abbrev pub value : Time → Store → String → Option String
value now s k = value_of (fresh now (s k))

pub get_each-Kept :
    (now : Time) (ks : List String) (m : Mock) (s : Store)
    → Refines now m s
    → ((get_each now ks m).0 ≡ map (value now s) ks) × Kept now m (get_each now ks m).1 s
unfolding get_each
get_each-Kept now [] m s r = (refl, (r, refl))
get_each-Kept now (k ∷ ks) m s r =
    let m1 = (get_kv now k m).1 in
    let (rest, (r', e)) = get_each-Kept now ks m1 s (get_kv-Refines now k m s r) in
    (ap₂ (λ v vs. v ∷ vs) (get_kv-seen now k m s r) rest, (r', e ∙ get_kv-errors now k m))

exists_one-get_kv :
    (now : Time) (k : String) (m : Mock)
    → ((exists_one now k m).0 ≡ is_some (get_kv now k m).0)
      × ((exists_one now k m).1 ≡ (get_kv now k m).1)
unfolding exists_one
exists_one-get_kv now k m = ground arith

pub exists_each-Kept :
    (now : Time) (ks : List String) (m : Mock) (s : Store)
    → Refines now m s
    → ((exists_each now ks m).0 ≡ live_count (value now s) ks)
      × Kept now m (exists_each now ks m).1 s
unfolding exists_each live_count
exists_each-Kept now [] m s r = (refl, (r, refl))
exists_each-Kept now (k ∷ ks) m s r =
    let m1 = (get_kv now k m).1 in
    let (n, state) = exists_one-get_kv now k m in
    let (rest, (r', e)) = exists_each-Kept now ks m1 s (get_kv-Refines now k m s r) in
    rw state (
      ap₂ (λ a b. a + b) (n ∙ ap (λ v. is_some v) (get_kv-seen now k m s r)) rest,
      (r', e ∙ get_kv-errors now k m),
    )

del_one-errors : (now : Time) (k : String) (m : Mock) → (del_one now k m).1.errors ≡ m.errors
unfolding del_one
del_one-errors now k m = ground (arith, get_kv-errors now k m)

pub del_each-Kept :
    (now : Time) (ks : List String) (m : Mock) (s : Store)
    → Refines now m s
    → ((del_each now ks m).0 ≡ (erase_each now ks s).0)
      × Kept now m (del_each now ks m).1 (erase_each now ks s).1
unfolding del_each erase_each
del_each-Kept now [] m s r = (refl, (r, refl))
del_each-Kept now (k ∷ ks) m s r =
    let (n, r1) = del_one-Refines now k m s r in
    let (rest, (r', e)) = del_each-Kept now ks (del_one now k m).1 (assign s k none) r1 in
    (ap₂ (λ a b. a + b) n rest, (r', e ∙ del_one-errors now k m))
