-- ===== src/Mock/Sets.antt =====
-- Sets: SAdd to SCard, and the HyperLogLog stand-ins PFAdd to PFMerge, of
-- sdk/go/resilixtest/mock.go.
pub mod Membership
use resilix.Prelude.{
  ℕ, suc, ◌+◌, String, Bool, true, false, ◌&&◌, ◌||◌, ◌==◌, not, Option, none, some, List, [], ◌∷◌,
  if◌then◌else◌,
}
use resilix.Prelude.Strings.{sort_strings}
use resilix.Errors.{Result, ok, err}
use resilix.Dict
use resilix.Dict.{Dict}
use resilix.Mock.{Mock, Value, sprint, guarded}
use resilix.Mock.Hash.{fresh_field}

abbrev pub MemberSet : Type 0
MemberSet = Dict (Unit {0})

-- `m.sets[key]`: a nil map reads as an empty one.
abbrev pub set_at : Mock → String → MemberSet
set_at m key = Dict.get_or m.sets key Dict.empty

unfoldable pub sadd_each : List String → MemberSet → ℕ × MemberSet
unfolding fresh_field
sadd_each [] s = (0, s)
sadd_each (x ∷ xs) s =
    let (added, s') = sadd_each xs (Dict.put s x tt) in (fresh_field s x + added, s')

unfoldable pub sadd : String → List String → Mock → Result ℕ × Mock
unfolding sadd_each
sadd key members = guarded "SAdd" λ m.
    let (added, s) = sadd_each members (set_at m key) in
    (ok added, record m { sets = Dict.put m.sets key s })

unfoldable pub srem_each : List String → MemberSet → ℕ × MemberSet
srem_each [] s = (0, s)
srem_each (x ∷ xs) s =
    let (removed, s') = srem_each xs (Dict.remove s x) in
    (elim (Dict.get s x) [ none ↦ removed | some u ↦ suc removed ], s')

unfoldable pub srem : String → List String → Mock → Result ℕ × Mock
unfolding srem_each
srem key members = guarded "SRem" λ m. elim (Dict.get m.sets key) [
  | none ↦ (ok 0, m)
  | some s ↦
      (let (removed, s') = srem_each members s in
        (ok removed, record m { sets = Dict.put m.sets key s' }))
]

unfoldable pub smembers : String → Mock → Result (List String) × Mock
smembers key = guarded "SMembers" λ m. (ok (sort_strings (Dict.keys (set_at m key))), m)

unfoldable pub sismember : String → String → Mock → Result Bool × Mock
sismember key member = guarded "SIsMember" λ m. (ok (Dict.has (set_at m key) member), m)

unfoldable pub scard : String → Mock → Result ℕ × Mock
scard key = guarded "SCard" λ m. (ok (Dict.size (set_at m key)), m)

-- PFAdd returns whether a set has changed.
unfoldable pub pfadd : String → List String → Mock → Result Bool × Mock
unfolding sadd_each
pfadd key elements = guarded "PFAdd" λ m.
    let (added, s) = sadd_each elements (set_at m key) in
    (ok (not (added == 0)), record m { sets = Dict.put m.sets key s })

-- The members of the sets of all the keys.
unfoldable pub union_into : List String → Mock → MemberSet → MemberSet
unfolding sadd_each
union_into [] m seen = seen
union_into (key ∷ keys) m seen = union_into keys m (sadd_each (Dict.keys (set_at m key)) seen).1

unfoldable pub pfcount : List String → Mock → Result ℕ × Mock
unfolding union_into
pfcount keys = guarded "PFCount" λ m. (ok (Dict.size (union_into keys m Dict.empty)), m)

unfoldable pub pfmerge : String → List String → Mock → Result (Unit {0}) × Mock
unfolding union_into
pfmerge dest keys =
    guarded "PFMerge"
      λ m. (ok tt, record m { sets = Dict.put m.sets dest (union_into keys m (set_at m dest)) })
