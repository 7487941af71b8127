-- ===== src/Mock/Hash/Fields.antt =====
-- What HGet returns behind HSet and HDel.
use resilix.Prelude.{
  String, ◌≡◌, refl, Option, none, some, List, [], ◌∷◌, arith, eq_refl, eq_iff, ◌∙◌, ap,
}
use resilix.Errors.{Result, ok, err, key_not_found}
use resilix.Dict
use resilix.Dict.{Dict, get_or_lem, lookup}
use resilix.Dict.Distinct.{DistinctKeys}
use resilix.Mock.{Mock, Value, sprint}
use resilix.Mock.Injected.{NoError, counted, guarded-body}
use resilix.Mock.Hash.{hset_each, hset, hget}

-- What HGet returns for a field that is looked up.
abbrev pub field_reading : Option String → Result String
field_reading none = err key_not_found
field_reading (some v) = ok v

abbrev pub hash_at : Mock → String → Dict String
hash_at m key = Dict.get_or m.hashes key Dict.empty

-- The text that was given for the field, if one was, else what was there.
abbrev pub written : Option Value → Option String → Option String
written none old = old
written (some v) old = some (sprint v)

hset_each-get :
    (l : List (String × Value)) (h : Dict String) (f : String)
    → DistinctKeys l
    → Dict.get (hset_each l h).1 f ≡ written (lookup f l) (Dict.get h f)
unfolding hset_each lookup
hset_each-get [] h f d = refl
hset_each-get ((g, v) ∷ l) h f d = ground (
  arith,
  d.0,
  hset_each-get l (Dict.put h g (sprint v)) f d.1,
  Dict.get-put h g f (sprint v),
  eq_iff g f,
)

hash_at-put :
    (key : String) (h : Dict String) (m : Mock)
    → hash_at (record m { hashes = Dict.put m.hashes key h }) key ≡ h
hash_at-put key h m =
    get_or_lem (Dict.put m.hashes key h) key Dict.empty
    ∙ rw (Dict.get-put m.hashes key key h, eq_refl key)

hget-state :
    (key f : String) (m : Mock)
    → NoError "HGet" m
    → (hget key f m).0 ≡ field_reading (Dict.get (hash_at m key) f)
unfolding hget
hget-state key f m h = rw (guarded-body "HGet" _ m h) (ground arith)

hset-state :
    (key : String) (values : Dict Value) (m : Mock)
    → NoError "HSet" m
    → (hset key values m).1 ≡ record (counted "HSet" m) {
      hashes = Dict.put m.hashes key (hset_each values.entries (hash_at m key)).1;
    }
unfolding hset
hset-state key values m h = rw (guarded-body "HSet" _ m h)

-- HGet behind HSet: the text of the value that was given for the field, and for a field that was
-- not given what was there. (No error is injected; the keys of a Go map are distinct.)
pub hget-hset :
    (key f : String) (values : Dict Value) (m : Mock)
    → DistinctKeys values.entries
    → NoError "HSet" m
    → NoError "HGet" m
    → (hget key f (hset key values m).1).0
      ≡ field_reading (written (Dict.get values f) (Dict.get (hash_at m key) f))
hget-hset key f values m d hs hg =
    let h = (hset_each values.entries (hash_at m key)).1 in
    rw (hset-state key values m hs) (
      hget-state key f (record (counted "HSet" m) { hashes = Dict.put m.hashes key h }) hg
      ∙ ap field_reading (
          ap (λ x. Dict.get x f) (hash_at-put key h (counted "HSet" m))
          ∙ hset_each-get values.entries (hash_at m key) f d
          ∙ (unfold Dict.get in refl)))
