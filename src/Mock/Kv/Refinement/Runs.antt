-- ===== src/Mock/Kv/Refinement/Runs.antt =====
-- That the mock answers any run of the commands on keys as the store does.
use resilix.Prelude.{
  ℕ, String, ◌≡◌, refl, sym, ap, ap₂, ◌∙◌, Option, none, some, List, [], ◌∷◌, arith, Bool-cases,
  inl, inr,
}
use resilix.Prelude.Int.{ℤ, Time, Duration, ◌+ℤ◌, inc64, dec64}
use resilix.Errors.{Result, ok}
use resilix.Dict
use resilix.Decimal.{format}
use resilix.Mock.{Mock, KvEntry, expired, get_kv}
use resilix.Mock.Injected.{counted, guarded-body}
use resilix.Mock.Kv.{
  get, set, mget, del, exists, expire, ttl, incr, decr, found, put_kv, new_entry, get_each,
  del_each, exists_each, expire_entry, ttl_of, count_by, number_in,
}
use resilix.Mock.Kv.Views.{fresh}
use resilix.Mock.Kv.Reads.{reading, found-reading, set-state, get_kv-errors}
use resilix.Mock.Kv.Refinement.{
  Store, Refines, Refines-later, get_kv-seen, get_kv-Refines, put_kv-Refines,
}
use resilix.Mock.Kv.Refinement.Loops.{Kept, value, get_each-Kept, exists_each-Kept, del_each-Kept}
use resilix.Mock.Kv.Refinement.Replay.{
  Command, do_get, do_set, do_mget, do_del, do_exists, do_expire, do_ttl, do_incr, do_decr, Answer,
  text, texts, number, flag, left, count, perform, extend_entry, step_by, replay_one, run, replay,
  Forward,
}

-- No error is injected for any operation.
abbrev pub Clean : Mock → Type 0
Clean m = (op : String) → Dict.get_or m.errors op [] ≡ []

-- What a command of the mock does is what the command of the store does.
abbrev Follows : Time → Mock → Answer × Mock → Answer × Store → Type 0
Follows now m r r' = (r.0 ≡ r'.0) × Kept now m r.1 r'.1

extend_entry-Follows :
    (now : Time) (k : String) (d : Duration) (o : Option KvEntry) (m : Mock) (s : Store)
    → Refines now m s
    → (flag (expire_entry now k d o m).0 ≡ (extend_entry now k d (fresh now o) s).0)
      × Kept now m (expire_entry now k d o m).1 (extend_entry now k d (fresh now o) s).1
unfolding expire_entry extend_entry
extend_entry-Follows now k d none m s r = (refl, (r, refl))
extend_entry-Follows now k d (some e) m s r = elim (Bool-cases (expired now e)) [
  | inl gone ↦ rw gone (refl, (r, refl))
  | inr there ↦
      let e' : KvEntry = record e { expiry = some (now +ℤ d) } in
      let kept : (put_kv k e' m).errors ≡ m.errors = unfold put_kv in refl in
      rw there (refl, (put_kv-Refines now k e' m s r, kept))
]

-- The body of Incr and of Decr.
abbrev stepped : (ℤ → ℤ) → Time → String → Mock → Result ℤ × Mock
stepped step now k m =
    let n = step (number_in (get_kv now k m).0) in
    (ok n, put_kv k (record { value = format n; expiry = none }) (get_kv now k m).1)

count_by-Follows :
    (step : ℤ → ℤ) (now : Time) (k : String) (m : Mock) (s : Store)
    → Refines now m s
    → (count (ok (step (number_in (get_kv now k m).0))) ≡ (step_by step now k s).0)
      × Kept now m
          (put_kv k
            (record { value = format (step (number_in (get_kv now k m).0)); expiry = none })
            (get_kv now k m).1)
          (step_by step now k s).1
unfolding step_by
count_by-Follows step now k m s r =
    let m1 = (get_kv now k m).1 in
    let e : KvEntry = record { value = format (step (number_in (value now s k))); expiry = none } in
    let kept : (put_kv k e m1).errors ≡ m1.errors = unfold put_kv in refl in
    rw (get_kv-seen now k m s r) (
      refl,
      (put_kv-Refines now k e m1 s (get_kv-Refines now k m s r), kept ∙ get_kv-errors now k m),
    )

ttl_of-fresh : (now : Time) (o : Option KvEntry) → ttl_of now o ≡ ttl_of now (fresh now o)
unfolding ttl_of
ttl_of-fresh now none = refl
ttl_of-fresh now (some e) = ground arith

found-state : (r : Option String × Mock) → (found r).1 ≡ r.1
unfolding found
found-state (none, m) = refl
found-state (some v, m) = refl

-- One command: the answers are the same, and so is what is seen afterwards.
perform-Follows :
    (now : Time) (c : Command) (m : Mock) (s : Store)
    → Clean m
    → Refines now m s
    → Follows now m (perform now c m) (replay_one now c s)
unfolding perform replay_one get set mget del exists expire ttl incr decr count_by
perform-Follows now (do_get k) m s clean r =
    let m1 = counted "Get" m in
    rw (guarded-body "Get" (λ m. found (get_kv now k m)) m (clean "Get", clean "")) (
      ap (λ x. text x) (found-reading (get_kv now k m1) ∙ ap reading (get_kv-seen now k m1 s r)),
      rw (found-state (get_kv now k m1)) (get_kv-Refines now k m1 s r, get_kv-errors now k m1),
    )
perform-Follows now (do_set k v d) m s clean r =
    let m1 = counted "Set" m in
    let e = new_entry now v d in
    let kept : (put_kv k e m1).errors ≡ m1.errors = unfold put_kv in refl in
    rw (set-state now k v d m (clean "Set", clean "")) (refl, (put_kv-Refines now k e m1 s r, kept))
perform-Follows now (do_mget ks) m s clean r =
    let body : Mock → Result (List (Option String)) × Mock =
      λ m. (ok (get_each now ks m).0, (get_each now ks m).1) in
    let (same, kept) = get_each-Kept now ks (counted "MGet" m) s r in
    rw (guarded-body "MGet" body m (clean "MGet", clean "")) (ap (λ l. texts (ok l)) same, kept)
perform-Follows now (do_del ks) m s clean r =
    let body : Mock → Result ℕ × Mock = λ m. (ok (del_each now ks m).0, (del_each now ks m).1) in
    let (same, kept) = del_each-Kept now ks (counted "Del" m) s r in
    rw (guarded-body "Del" body m (clean "Del", clean "")) (ap (λ n. number (ok n)) same, kept)
perform-Follows now (do_exists ks) m s clean r =
    let body : Mock → Result ℕ × Mock =
      λ m. (ok (exists_each now ks m).0, (exists_each now ks m).1) in
    let (same, kept) = exists_each-Kept now ks (counted "Exists" m) s r in
    rw (guarded-body "Exists" body m (clean "Exists", clean ""))
      (ap (λ n. number (ok n)) same, kept)
perform-Follows now (do_expire k d) m s clean r =
    let m1 = counted "Expire" m in
    let run : expire now k d m ≡ expire_entry now k d (Dict.get m.kv k) m1 =
      guarded-body "Expire" (λ m. expire_entry now k d (Dict.get m.kv k) m) m
        (clean "Expire", clean "") in
    rw (run, sym (r now k (omega arith))) (extend_entry-Follows now k d (Dict.get m.kv k) m1 s r)
perform-Follows now (do_ttl k) m s clean r =
    let body : Mock → Result Duration × Mock = λ m. (ok (ttl_of now (Dict.get m.kv k)), m) in
    rw (guarded-body "TTL" body m (clean "TTL", clean "")) (
      ap (λ x. left (ok x))
          (ttl_of-fresh now (Dict.get m.kv k) ∙ ap (ttl_of now) (r now k (omega arith))),
      (r, refl),
    )
perform-Follows now (do_incr k) m s clean r =
    rw (guarded-body "Incr" (stepped inc64 now k) m (clean "Incr", clean ""))
      (count_by-Follows inc64 now k (counted "Incr" m) s r)
perform-Follows now (do_decr k) m s clean r =
    rw (guarded-body "Decr" (stepped dec64 now k) m (clean "Decr", clean ""))
      (count_by-Follows dec64 now k (counted "Decr" m) s r)

run-Follows :
    (cs : List (Time × Command)) (now : Time) (m : Mock) (s : Store)
    → Clean m
    → Forward now cs
    → Refines now m s
    → run cs m ≡ replay cs s
unfolding run replay
run-Follows [] now m s clean forward r = refl
run-Follows ((t, c) ∷ cs) now m s clean (le, forward) r =
    let (same, (r', e)) = perform-Follows t c m s clean (Refines-later now t m s le r) in
    ap₂ (λ a l. a ∷ l) same
      (run-Follows cs t (perform t c m).1 (replay_one t c s).1
        (λ op. ap (λ d. Dict.get_or d op []) e ∙ clean op) forward r')

-- At times that do not go back, any run of Get, Set, MGet, Del, Exists, Expire, TTL, Incr and Decr on
-- the mock gets the answers that it gets on a store which is a function of the key, changes at no
-- read, and never drops an entry whose time is over. (No error is injected.)
pub run-replays :
    (cs : List (Time × Command)) (now : Time) (m : Mock)
    → Clean m
    → Forward now cs
    → run cs m ≡ replay cs (Dict.get m.kv)
run-replays cs now m clean forward =
    run-Follows cs now m (Dict.get m.kv) clean forward (λ t j le. refl)
