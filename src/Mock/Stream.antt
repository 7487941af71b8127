-- ===== src/Mock/Stream.antt =====
-- Streams: XAdd to XGroupCreateMkStream of sdk/go/resilixtest/mock.go.
pub mod Reading
use Prim.Native.String.{◌++◌ as str_append}
use resilix.Prelude.{
  ℕ, suc, ◌*◌, String, Bool, ◌&&◌, Option, none, some, List, [], ◌∷◌, ◌++◌, drop, str_eq,
  if◌then◌else◌,
}
use resilix.Prelude.Int.{ℤ, Duration, pos, ltb_ℤ, leb_ℤ, ◌+ℤ◌, inc64}
use resilix.Errors.{Result, ok}
use resilix.Dict
use resilix.Dict.{Dict}
use resilix.Decimal.{format}
use resilix.Mock.{Mock, Value, StreamEntry, guarded}
use resilix.Mock.Kv.Views.{elem}

abbrev pub stream_at : Mock → String → List StreamEntry
stream_at m s = Dict.get_or m.streams s []

-- The number in front of the dash of an entry's id.
unfoldable pub id_number : ℕ → ℤ → ℤ
id_number ms seq = pos (ms * 1000) +ℤ seq

-- `ms` is the reading of the clock in milliseconds since 1970.
unfoldable pub xadd : ℕ → String → Dict Value → Mock → Result String × Mock
unfolding id_number
xadd ms stream values = guarded "XAdd" λ m.
    let seq = inc64 m.stream_seq in
    let id = str_append (format (id_number ms seq)) "-0" in
    (
      ok id,
      record m {
        stream_seq = seq;
        streams =
            Dict.put m.streams stream
              (stream_at m stream ++ record { id = id; values = values } ∷ []);
      },
    )

-- The inner loop of XReadGroup from index `j`, with `count` entries taken: the entries that it takes
-- and the index that it stores, if the limit stops it.
unfoldable pub read_from : ℤ → ℕ → ℕ → List StreamEntry → List StreamEntry × Option ℕ
read_from limit j count [] = ([], none)
read_from limit j count (e ∷ es) =
    let (taken, stored) = read_from limit (suc j) (suc count) es in
    if ltb_ℤ (pos 0) limit && leb_ℤ limit (pos (suc count))
    then (e ∷ [], some (suc j))
    else (e ∷ taken, stored)

unfoldable pub group_at : Mock → String → String → ℕ
group_at m stream group = Dict.get_or (Dict.get_or m.groups stream Dict.empty) group 0

unfoldable pub put_group : String → String → Option ℕ → Mock → Mock
put_group stream group stored m =
    let g = Dict.get_or m.groups stream Dict.empty in
    record m {
      groups = Dict.put m.groups stream (elim stored [ none ↦ g | some j ↦ Dict.put g group j ]);
    }

pub record StreamReadResponse : Type 0 where
  pub stream : String
  pub entries : List StreamEntry

-- What one stream of the request gives: nothing for `>` where there is nothing new.
unfoldable pub answer : String → Bool → List StreamEntry → List StreamReadResponse
answer stream new [] = if new then [] else record { stream = stream; entries = [] } ∷ []
answer stream new (e ∷ es) = record { stream = stream; entries = e ∷ es } ∷ []

-- One round of the outer loop.
unfoldable pub read_stream : String → ℤ → String → String → Mock → List StreamReadResponse × Mock
unfolding read_from put_group group_at answer
read_stream group limit stream id m =
    let new = str_eq id ">" in
    let start = if new then group_at m stream group else 0 in
    let (taken, stored) = read_from limit start 0 (drop start (stream_at m stream)) in
    (answer stream new taken, put_group stream group stored m)

-- The outer loop over the streams, each with its id or with `>`.
unfoldable pub read_streams :
    String → ℤ → List String → List String → Mock → List StreamReadResponse × Mock
unfolding read_stream
read_streams group limit [] ids m = ([], m)
read_streams group limit (s ∷ ss) [] m =
    let (r, m1) = read_stream group limit s ">" m in
    let (rs, m2) = read_streams group limit ss [] m1 in (r ++ rs, m2)
read_streams group limit (s ∷ ss) (id ∷ ids) m =
    let (r, m1) = read_stream group limit s id m in
    let (rs, m2) = read_streams group limit ss ids m1 in (r ++ rs, m2)

-- The consumer, the blocking time and NoAck of the request are not read.
pub record StreamReadRequest : Type 0 where
  pub group : String
  pub consumer : String
  pub streams : List String
  pub ids : List String
  pub count : ℤ
  pub block : Duration
  pub no_ack : Bool

unfoldable pub xread_group : StreamReadRequest → Mock → Result (List StreamReadResponse) × Mock
unfolding read_streams
xread_group req =
    guarded "XReadGroup"
      λ m. let (rs, m') = read_streams req.group req.count req.streams req.ids m in (ok rs, m')

unfoldable pub xack : Mock → Result ℕ × Mock
xack = guarded "XAck" λ m. (ok 1, m)

unfoldable pub xdel_from : List String → List StreamEntry → ℕ × List StreamEntry
xdel_from ids [] = (0, [])
xdel_from ids (e ∷ es) =
    let (removed, es') = xdel_from ids es in
    if elem e.id ids then (suc removed, es') else (removed, e ∷ es')

unfoldable pub xdel : String → List String → Mock → Result ℕ × Mock
unfolding xdel_from
xdel stream ids = guarded "XDel" λ m.
    let (removed, es) = xdel_from ids (stream_at m stream) in
    (ok removed, record m { streams = Dict.put m.streams stream es })

unfoldable pub xgroup_create_mk_stream : String → String → Mock → Result (Unit {0}) × Mock
unfolding put_group
xgroup_create_mk_stream stream group =
    guarded "XGroupCreateMkStream" λ m. (ok tt, put_group stream group (some 0) m)
