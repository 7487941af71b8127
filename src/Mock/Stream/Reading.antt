-- ===== src/Mock/Stream/Reading.antt =====
-- What a consumer group reads of a stream without a Count.
use resilix.Prelude.{
  false, ℕ, suc, ◌≡◌, refl, sym, ap, ◌∙◌, String, true, none, List, [], ◌∷◌, ◌++◌, arith, drop,
  eq_refl,
}
use resilix.Prelude.Int.{ℤ, pos, ◌≤ℤ◌}
use resilix.Errors.{ok}
use resilix.Dict
use resilix.Dict.{get_or_lem}
use resilix.Mock.{Mock, StreamEntry}
use resilix.Mock.Injected.{NoError, counted, guarded-body}
use resilix.Mock.Stream.{
  StreamReadRequest, stream_at, group_at, put_group, read_from, read_stream, read_streams, answer,
  xread_group,
}

read_from-all :
    (limit : ℤ) (j n : ℕ) (es : List StreamEntry)
    → limit ≤ℤ pos 0
    → read_from limit j n es ≡ (es, none)
unfolding read_from
read_from-all limit j n [] h = refl
read_from-all limit j n (e ∷ es) h = ground (arith, read_from-all limit (suc j) (suc n) es h)

group_at-put_group :
    (s g : String) (m : Mock) → group_at (put_group s g none m) s g ≡ group_at m s g
unfolding group_at put_group
group_at-put_group s g m =
    let old = Dict.get_or m.groups s Dict.empty in
    ap (λ d. Dict.get_or d g 0)
      (get_or_lem (Dict.put m.groups s old) s Dict.empty
        ∙ rw (Dict.get-put m.groups s s old, eq_refl s) refl)

-- A request for the new entries of one stream.
abbrev pub news : String → ℤ → String → StreamReadRequest
news group limit s = record {
  group = group;
  consumer = "";
  streams = s ∷ [];
  ids = ">" ∷ [];
  count = limit;
  block = pos 0;
  no_ack = false;
}

xread_group-state :
    (group : String) (limit : ℤ) (s : String) (m : Mock)
    → limit ≤ℤ pos 0
    → NoError "XReadGroup" m
    → xread_group (news group limit s) m ≡ (
      ok (answer s true (drop (group_at m s group) (stream_at m s)) ++ []),
      put_group s group none (counted "XReadGroup" m),
    )
unfolding xread_group read_streams read_stream
xread_group-state group limit s m h e =
    guarded-body "XReadGroup" _ m e
    ∙ rw (read_from-all limit (group_at m s group) 0 (drop (group_at m s group) (stream_at m s)) h)
        (unfold put_group in refl)

-- A consumer group that reads the new entries of a stream without a Count gets all of them behind
-- its position, and does not move: a second read returns the same entries again. (No error is
-- injected.)
pub xread_group-again :
    (group : String) (limit : ℤ) (s : String) (m : Mock)
    → limit ≤ℤ pos 0
    → NoError "XReadGroup" m
    → ((xread_group (news group limit s) m).0
        ≡ ok (answer s true (drop (group_at m s group) (stream_at m s)) ++ []))
      × ((xread_group (news group limit s) (xread_group (news group limit s) m).1).0
          ≡ (xread_group (news group limit s) m).0)
unfolding group_at put_group
xread_group-again group limit s m h e =
    let m1 = put_group s group none (counted "XReadGroup" m) in
    let first = xread_group-state group limit s m h e in
    let at : group_at m1 s group ≡ group_at m s group =
      group_at-put_group s group (counted "XReadGroup" m) in
    let second = xread_group-state group limit s m1 h e in
    (
      ap (λ r. r.0) first,
      ap (λ r. (xread_group (news group limit s) r.1).0) first
          ∙ ap (λ r. r.0) second
          ∙ ap (λ n. ok (answer s true (drop n (stream_at m s)) ++ [])) at
          ∙ sym (ap (λ r. r.0) first),
    )
