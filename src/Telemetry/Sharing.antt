-- ===== src/Telemetry/Sharing.antt =====
-- Two recorders on one registry: New of sdk/go/internal/telemetry/recorder.go.
use resilix.Prelude.{
  ℕ, ◌+◌, ◌==◌, ◌≡◌, refl, ap, ◌∙◌, sym, String, true, false, Option, none, some, List, [], ◌∷◌,
  arith, str_eq, if◌then◌else◌, eq_iff, eq_refl,
}
use resilix.Prelude.Int.{ℤ, pos}
use resilix.Dict
use resilix.Dict.{Dict}
use resilix.Mock.Kv.Views.{elem, AllDistinct}
use resilix.Telemetry.Registry.{
  Collector, RegisterError, already_registered, Register, has_kind, kept, register_one,
  register_all, made_from, breaker_gauge, Process, initial, shown_first, new_metrics,
}

-- What the documentation of Prometheus says of Register: a collector is registered where its name is
-- free, and refused with the one that is there otherwise.
pub record IsRegistry {R : Type 0} (register : Register R) (holds : R → String → Option Collector)
    : Type 0 where
  pub added : (c : Collector) (r : R) → holds r c.name ≡ none → (register c r).0 ≡ none
  pub then_held :
      (c : Collector) (r : R) (name : String)
      → holds r c.name ≡ none
      → holds (register c r).1 name ≡ (if str_eq c.name name then some c else holds r name)
  pub refused :
      (c x : Collector) (r : R)
      → holds r c.name ≡ some x
      → register c r ≡ (some (already_registered x), r)

abbrev names : List Collector → List String
names [] = []
names (c ∷ cs) = c.name ∷ names cs

module _ {R : Type 0} (register : Register R) (holds : R → String → Option Collector)
    (law : IsRegistry register holds) where
  -- None of the names is taken; each of the collectors is there.
  abbrev pub AllFree : List Collector → R → Type 0
  AllFree [] r = Unit {0}
  AllFree (c ∷ cs) r = (holds r c.name ≡ none) × AllFree cs r

  abbrev AllHeld : List Collector → R → Type 0
  AllHeld [] r = Unit {0}
  AllHeld (c ∷ cs) r = (holds r c.name ≡ some c) × AllHeld cs r

  kept-fresh : (c : Collector) (x : Option RegisterError × R) → x.0 ≡ none → kept c x ≡ (c, x.1)
  unfolding kept
  kept-fresh c (none, r) h = refl
  kept-fresh c (some e, r) h = ground (arith, h)

  held-other :
      (c : Collector) (r : R) (name : String)
      → holds r c.name ≡ none
      → str_eq name c.name ≡ false
      → holds (register c r).1 name ≡ holds r name
  held-other c r name free other =
      let apart : str_eq c.name name ≡ false =
        ground (arith, other, eq_iff name c.name, eq_iff c.name name) in
      law.then_held c r name free ∙ rw apart refl

  held_self :
      (c : Collector) (r : R) → holds r c.name ≡ none → holds (register c r).1 c.name ≡ some c
  held_self c r free = law.then_held c r c.name free ∙ rw (eq_refl c.name) refl

  free-behind :
      (c : Collector) (r : R) (cs : List Collector)
      → holds r c.name ≡ none
      → elem c.name (names cs) ≡ false
      → AllFree cs r
      → AllFree cs (register c r).1
  unfolding elem
  free-behind c r [] free apart rest = tt
  free-behind c r (d ∷ cs) free apart (head, rest) = (
    held-other c r d.name free (ground (arith, apart)) ∙ head,
    free-behind c r cs free (ground (arith, apart)) rest,
  )

  -- On free names each collector is registered, and no other name changes.
  first-all :
      (cs : List Collector) (r : R)
      → AllDistinct (names cs)
      → AllFree cs r
      → ((register_all register cs r).0 ≡ cs)
        × AllHeld cs (register_all register cs r).1
        × ((name : String)
            → elem name (names cs) ≡ false
            → holds (register_all register cs r).1 name ≡ holds r name)
  unfolding register_all register_one elem
  first-all [] r distinct free = (refl, tt, λ name h. refl)
  first-all (c ∷ cs) r (apart, distinct) (free, rest) =
      let r1 = (register c r).1 in
      let (same, held, others) = first-all cs r1 distinct (free-behind c r cs free apart rest) in
      rw (kept-fresh c (register c r) (law.added c r free)) (
        ap (λ l. c ∷ l) same,
        (others c.name apart ∙ held_self c r free, held),
        λ name h.
            others name (ground (arith, h))
            ∙ held-other c r name free (ground (arith, h, eq_iff name c.name, eq_iff c.name name)),
      )

  abbrev SameShape : List Collector → List Collector → Type 0
  SameShape [] [] = Unit {0}
  SameShape [] (d ∷ ds) = ⊥
  SameShape (c ∷ cs) [] = ⊥
  SameShape (c ∷ cs) (d ∷ ds) =
      (c.name ≡ d.name) × (has_kind c.kind d.kind ≡ true) × SameShape cs ds

  -- Where they are there, each is given again, and the registry is as it was.
  again-all :
      (cs ds : List Collector) (r : R)
      → SameShape cs ds
      → AllHeld ds r
      → register_all register cs r ≡ (ds, r)
  unfolding register_all register_one kept
  again-all [] [] r shape held = refl
  again-all [] (d ∷ ds) r shape held = absurd shape
  again-all (c ∷ cs) [] r shape held = absurd shape
  again-all (c ∷ cs) (d ∷ ds) r (name, kind, shape) (there, held) =
      rw (law.refused c d r (ap (holds r) name ∙ there), kind, again-all cs ds r shape held) refl

  made-SameShape : (n k : ℕ) → SameShape (made_from n) (made_from k)
  unfolding has_kind
  made-SameShape n k = (
    refl,
    refl,
    (
      refl,
      refl,
      (
        refl,
        refl,
        (refl, refl, (refl, refl, (refl, refl, (refl, refl, (refl, refl, (refl, refl, tt)))))),
      ),
    ),
  )

  made-distinct : (n : ℕ) → AllDistinct (names (made_from n))
  unfolding elem
  made-distinct n = (refl, (refl, (refl, (refl, (refl, (refl, (refl, (refl, (refl, tt)))))))))

  at_self :
      (i : ℕ) (labels : ℕ → Dict ℤ)
      → (if i == i then initial (labels i) else labels i) ≡ initial (labels i)
  at_self i labels = let same : (i == i) ≡ true = ground arith in rw same refl

  initial-closed : (d : Dict ℤ) → Dict.get (initial d) "closed" ≡ some (pos 1)
  unfolding initial
  initial-closed d = simp Dict.dict_laws

  initial-open : (d : Dict ℤ) → Dict.get (initial d) "open" ≡ some (pos 0)
  unfolding initial
  initial-open d = simp Dict.dict_laws

  -- New once more, on the registry that it has left, in a later state of the gauges.
  abbrev pub once_more : Process R → ℕ → (ℕ → Dict ℤ) → List Collector × Process R
  once_more p n labels =
      new_metrics register
        (record { registry = (new_metrics register p).1.registry; made = n; labels = labels })

  -- A label of the gauge that a list of metrics has for the breaker's state.
  abbrev pub state_label : List Collector → Process R → String → Option ℤ
  state_label metrics p label = Dict.get (p.labels (breaker_gauge metrics)) label

  -- The names of the metrics are free at first. A second recorder on the registry then gets the
  -- metrics of the first and leaves the registry as it is; but it sets the gauge of the breaker's
  -- state, which they share, to closed, whatever the first has set it to meanwhile. (Register does
  -- what its documentation says.)
  pub second-shares :
      (p : Process R) (n : ℕ) (labels : ℕ → Dict ℤ)
      → AllFree (made_from p.made) p.registry
      → ((once_more p n labels).0 ≡ (new_metrics register p).0)
        × ((once_more p n labels).1.registry ≡ (new_metrics register p).1.registry)
        × (state_label (new_metrics register p).0 (once_more p n labels).1 "closed" ≡ some (pos 1))
        × (state_label (new_metrics register p).0 (once_more p n labels).1 "open" ≡ some (pos 0))
  unfolding new_metrics shown_first
  second-shares p n labels free =
      let (same, held, others) =
        first-all (made_from p.made) p.registry (made-distinct p.made) free in
      let r1 = (register_all register (made_from p.made) p.registry).1 in
      let ms = made_from p.made in
      let i = p.made + 4 in
      let q : Process R = record { registry = r1; made = n; labels = labels } in
      let again =
        ap (shown_first q) (again-all (made_from n) ms r1 (made-SameShape n p.made) held) in
      let label : (l : String)
          → state_label (new_metrics register p).0 (once_more p n labels).1 l
            ≡ Dict.get (initial (labels i)) l =
        λ l.
          ap (λ m. state_label m (once_more p n labels).1 l) same
          ∙ ap (λ x. state_label ms x.1 l) again
          ∙ ap (λ d. Dict.get d l) (at_self i labels) in
      (
        ap (λ x. x.0) again ∙ sym same,
        ap (λ x. x.1.registry) again,
        label "closed" ∙ initial-closed (labels i),
        label "open" ∙ initial-open (labels i),
      )
