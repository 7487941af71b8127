-- ===== src/Config/Order.antt =====
-- That the overrides of sdk/go/config/config.go may be met in any order.
use resilix.Prelude.{
  String, ◌≡◌, ◌≢◌, refl, sym, ap, ◌∙◌, Bool, true, false, List, [], ◌∷◌, arith, str_eq, eq_iff,
  ◌⊎◌, inl, inr, Bool-cases,
}
use resilix.Mock.Kv.Views.{elem, AllDistinct}
use resilix.Config.Decoded.{File, Outside}
use resilix.Config.{
  Setting, Field, app_name, redis_mode, redis_addrs, redis_password, runtime_max_inflight, no_field,
  field_of, put, apply_overrides,
}

-- Whether both are the same case of the switch.
unfoldable clash : Field → Field → Bool
clash app_name app_name = true
clash redis_mode redis_mode = true
clash redis_addrs redis_addrs = true
clash redis_password redis_password = true
clash runtime_max_inflight runtime_max_inflight = true
clash _ _ = false

abbrev name_of : Field → String
name_of app_name = "app.name"
name_of redis_mode = "redis.mode"
name_of redis_addrs = "redis.addrs"
name_of redis_password = "redis.password"
name_of runtime_max_inflight = "runtime.max_inflight"
name_of no_field = ""

field_of-name_of : (x : String) → (field_of x ≡ no_field) ⊎ (x ≡ name_of (field_of x))
unfolding field_of
field_of-name_of x = ground (
  arith,
  eq_iff x "app.name",
  eq_iff x "redis.mode",
  eq_iff x "redis.addrs",
  eq_iff x "redis.password",
  eq_iff x "runtime.max_inflight",
)

clash-eq : (a b : Field) → clash a b ≡ true → a ≡ b
unfolding clash
clash-eq app_name app_name h = refl
clash-eq app_name redis_mode h = absurd (ground (arith, h))
clash-eq app_name redis_addrs h = absurd (ground (arith, h))
clash-eq app_name redis_password h = absurd (ground (arith, h))
clash-eq app_name runtime_max_inflight h = absurd (ground (arith, h))
clash-eq app_name no_field h = absurd (ground (arith, h))
clash-eq redis_mode app_name h = absurd (ground (arith, h))
clash-eq redis_mode redis_mode h = refl
clash-eq redis_mode redis_addrs h = absurd (ground (arith, h))
clash-eq redis_mode redis_password h = absurd (ground (arith, h))
clash-eq redis_mode runtime_max_inflight h = absurd (ground (arith, h))
clash-eq redis_mode no_field h = absurd (ground (arith, h))
clash-eq redis_addrs app_name h = absurd (ground (arith, h))
clash-eq redis_addrs redis_mode h = absurd (ground (arith, h))
clash-eq redis_addrs redis_addrs h = refl
clash-eq redis_addrs redis_password h = absurd (ground (arith, h))
clash-eq redis_addrs runtime_max_inflight h = absurd (ground (arith, h))
clash-eq redis_addrs no_field h = absurd (ground (arith, h))
clash-eq redis_password app_name h = absurd (ground (arith, h))
clash-eq redis_password redis_mode h = absurd (ground (arith, h))
clash-eq redis_password redis_addrs h = absurd (ground (arith, h))
clash-eq redis_password redis_password h = refl
clash-eq redis_password runtime_max_inflight h = absurd (ground (arith, h))
clash-eq redis_password no_field h = absurd (ground (arith, h))
clash-eq runtime_max_inflight app_name h = absurd (ground (arith, h))
clash-eq runtime_max_inflight redis_mode h = absurd (ground (arith, h))
clash-eq runtime_max_inflight redis_addrs h = absurd (ground (arith, h))
clash-eq runtime_max_inflight redis_password h = absurd (ground (arith, h))
clash-eq runtime_max_inflight runtime_max_inflight h = refl
clash-eq runtime_max_inflight no_field h = absurd (ground (arith, h))
clash-eq no_field app_name h = absurd (ground (arith, h))
clash-eq no_field redis_mode h = absurd (ground (arith, h))
clash-eq no_field redis_addrs h = absurd (ground (arith, h))
clash-eq no_field redis_password h = absurd (ground (arith, h))
clash-eq no_field runtime_max_inflight h = absurd (ground (arith, h))
clash-eq no_field no_field h = absurd (ground (arith, h))

clash-no_field : (a : Field) → clash no_field a ≡ false
unfolding clash
clash-no_field app_name = refl
clash-no_field redis_mode = refl
clash-no_field redis_addrs = refl
clash-no_field redis_password = refl
clash-no_field runtime_max_inflight = refl
clash-no_field no_field = refl

module _ {F : Type 0} where
  put-swap :
      (a b : Field) (v u : Setting) (f : File F)
      → clash a b ≡ false
      → put a v (put b u f) ≡ put b u (put a v f)
  unfolding clash put
  put-swap app_name app_name v u f h = absurd (ground (arith, h))
  put-swap app_name redis_mode v u f h = refl
  put-swap app_name redis_addrs v u f h = refl
  put-swap app_name redis_password v u f h = refl
  put-swap app_name runtime_max_inflight v u f h = refl
  put-swap app_name no_field v u f h = refl
  put-swap redis_mode app_name v u f h = refl
  put-swap redis_mode redis_mode v u f h = absurd (ground (arith, h))
  put-swap redis_mode redis_addrs v u f h = refl
  put-swap redis_mode redis_password v u f h = refl
  put-swap redis_mode runtime_max_inflight v u f h = refl
  put-swap redis_mode no_field v u f h = refl
  put-swap redis_addrs app_name v u f h = refl
  put-swap redis_addrs redis_mode v u f h = refl
  put-swap redis_addrs redis_addrs v u f h = absurd (ground (arith, h))
  put-swap redis_addrs redis_password v u f h = refl
  put-swap redis_addrs runtime_max_inflight v u f h = refl
  put-swap redis_addrs no_field v u f h = refl
  put-swap redis_password app_name v u f h = refl
  put-swap redis_password redis_mode v u f h = refl
  put-swap redis_password redis_addrs v u f h = refl
  put-swap redis_password redis_password v u f h = absurd (ground (arith, h))
  put-swap redis_password runtime_max_inflight v u f h = refl
  put-swap redis_password no_field v u f h = refl
  put-swap runtime_max_inflight app_name v u f h = refl
  put-swap runtime_max_inflight redis_mode v u f h = refl
  put-swap runtime_max_inflight redis_addrs v u f h = refl
  put-swap runtime_max_inflight redis_password v u f h = refl
  put-swap runtime_max_inflight runtime_max_inflight v u f h = absurd (ground (arith, h))
  put-swap runtime_max_inflight no_field v u f h = refl
  put-swap no_field app_name v u f h = refl
  put-swap no_field redis_mode v u f h = refl
  put-swap no_field redis_addrs v u f h = refl
  put-swap no_field redis_password v u f h = refl
  put-swap no_field runtime_max_inflight v u f h = refl
  put-swap no_field no_field v u f h = refl

apart : (a : Field) → clash no_field a ≢ true
apart a h = absurd (ground (arith, h, clash-no_field a))

clash-same : (x y : String) → clash (field_of x) (field_of y) ≡ true → x ≡ y
clash-same x y h =
    let same = clash-eq (field_of x) (field_of y) h in
    elim (field_of-name_of x) [
      | inl none_x ↦ absurd (apart (field_of y) (sym (ap (λ a. clash a (field_of y)) none_x) ∙ h))
      | inr by_x ↦ elim (field_of-name_of y) [
        | inl none_y ↦
            absurd (apart (field_of y) (sym (ap (λ a. clash a (field_of y)) (same ∙ none_y)) ∙ h))
        | inr by_y ↦ by_x ∙ ap name_of same ∙ sym by_y
      ]
    ]

-- Lists with the same entries in another order.
pub data Reordered {A : Type 0} : List A → List A → Type 0 where
  same : (l : List A) → Reordered l l
  swap : (a b : A) (l : List A) → Reordered (a ∷ b ∷ l) (b ∷ a ∷ l)
  under : (a : A) (l l' : List A) → Reordered l l' → Reordered (a ∷ l) (a ∷ l')
  joined : (l l' l'' : List A) → Reordered l l' → Reordered l' l'' → Reordered l l''

module _ {F : Type 0} (outside : Outside F) where
  -- The keys as the switch sees them.
  abbrev pub lowered : List (String × Setting) → List String
  lowered [] = []
  lowered ((k, v) ∷ l) = outside.to_lower k ∷ lowered l

  elem-Reordered :
      (j : String) (l l' : List (String × Setting))
      → Reordered l l'
      → elem j (lowered l) ≡ elem j (lowered l')
  unfolding elem
  elem-Reordered j _ _ (same l) = refl
  elem-Reordered j _ _ (swap (a, v) (b, u) l) = ground arith
  elem-Reordered j _ _ (under (a, v) l l' r) = ground (arith, elem-Reordered j l l' r)
  elem-Reordered j _ _ (joined l l' l'' r r') = elem-Reordered j l l' r ∙ elem-Reordered j l' l'' r'

  distinct-Reordered :
      (l l' : List (String × Setting))
      → Reordered l l'
      → AllDistinct (lowered l)
      → AllDistinct (lowered l')
  unfolding elem
  distinct-Reordered _ _ (same l) d = d
  distinct-Reordered _ _ (swap (a, v) (b, u) l) d = ground (
    arith,
    d,
    eq_iff (outside.to_lower a) (outside.to_lower b),
    eq_iff (outside.to_lower b) (outside.to_lower a),
  )
  distinct-Reordered _ _ (under (a, v) l l' r) (d, ds) =
      (sym (elem-Reordered (outside.to_lower a) l l' r) ∙ d, distinct-Reordered l l' r ds)
  distinct-Reordered _ _ (joined l l' l'' r r') d =
      distinct-Reordered l' l'' r' (distinct-Reordered l l' r d)

  apply-swap :
      (a b : String) (v u : Setting) (l : List (String × Setting)) (f : File F)
      → str_eq (outside.to_lower b) (outside.to_lower a) ≡ false
      → apply_overrides outside ((a, v) ∷ (b, u) ∷ l) f
        ≡ apply_overrides outside ((b, u) ∷ (a, v) ∷ l) f
  unfolding apply_overrides
  apply-swap a b v u l f apart =
      ap (λ g. apply_overrides outside l g)
        (put-swap (field_of (outside.to_lower b)) (field_of (outside.to_lower a)) u v f
          (elim (Bool-cases
            (clash (field_of (outside.to_lower b)) (field_of (outside.to_lower a)))) [
              | inl c ↦
                  let x = outside.to_lower b in
                  let y = outside.to_lower a in
                  let twice = clash-same x y c in ground (arith, apart, twice, eq_iff x y)
              | inr c ↦ c
            ]))

  -- As long as no two keys are the same but for the case of their letters, ApplyOverrides gives the
  -- same file in whatever order the loop meets the entries.
  pub overrides-Reordered :
      (l l' : List (String × Setting)) (f : File F)
      → Reordered l l'
      → AllDistinct (lowered l)
      → apply_overrides outside l f ≡ apply_overrides outside l' f
  unfolding apply_overrides elem
  overrides-Reordered _ _ f (same l) d = refl
  overrides-Reordered _ _ f (swap (a, v) (b, u) l) d = apply-swap a b v u l f (ground (arith, d.0))
  overrides-Reordered _ _ f (under (a, v) l l' r) d =
      overrides-Reordered l l' (put (field_of (outside.to_lower a)) v f) r d.1
  overrides-Reordered _ _ f (joined l l' l'' r r') d =
      overrides-Reordered l l' f r d ∙ overrides-Reordered l' l'' f r' (distinct-Reordered l l' r d)
