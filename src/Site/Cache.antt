-- ===== src/Site/Cache.antt =====
-- internal/site/middleware.go: the response cache. Times are numbers of nanoseconds; the clock's
-- readings are arguments. A handler is the list of the calls that it makes of its ResponseWriter.
-- The lock makes each of `get` and `set` one step, so they are functions of the entries.
pub mod Recording
pub mod Safety
pub mod Replay
pub mod Key
use lamund.Prelude.{
  ℕ, ◌+◌, Bool, true, false, not, ◌&&◌, ◌||◌, Option, none, some, List, [], ◌∷◌, ◌++◌, ltb, leb,
  ◌==◌, if◌then◌else◌, Bytes, codes, beq, contains, length, Map, lookup, insert, delete, lower,
}
use lamund.Site.Http.{
  Header, get_header, has_header, add_header, set_header, Writer, write_header, write, Call, set,
  add, del, status, body, perform, perform_each, Request,
}

pub record CacheEntry : Type 0 where
  pub body : Bytes
  pub header : Header
  pub expires : ℕ

pub record RespCache : Type 0 where
  pub entries : Map CacheEntry
  pub ttl : ℕ
  pub max : ℕ

-- Cache(ttl)
unfoldable pub new_cache : ℕ → RespCache
new_cache ttl = record { entries = []; ttl = ttl; max = 1024 }

-- The outcome of a lookup in the map, where an expired entry is removed.
unfoldable pub get_entry : ℕ → Bytes → Option CacheEntry → RespCache → Option CacheEntry × RespCache
get_entry now key none c = (none, c)
get_entry now key (some e) c =
    if ltb e.expires now then (none, record c { entries = delete key c.entries }) else (some e, c)

unfoldable pub get : ℕ → Bytes → RespCache → Option CacheEntry × RespCache
unfolding get_entry
get now key c = get_entry now key (lookup key c.entries) c

abbrev exists : Option CacheEntry → Bool
exists none = false
exists (some e) = true

unfoldable pub put : Bytes → CacheEntry → RespCache → RespCache
put key e c =
    if leb c.max (length c.entries) && not (exists (lookup key c.entries))
    then c
    else record c { entries = insert key e c.entries }

-- cacheRecorder, with the ResponseWriter that it wraps
pub record Recorder : Type 0 where
  pub inner : Writer
  pub buf : Bytes
  pub status : ℕ
  pub wrote : Bool
  pub no_store : Bool

abbrev pub recorder : Writer → Recorder
recorder w = record { inner = w; buf = []; status = 200; wrote = false; no_store = false }

-- The response is bound to a user: Cache-Control no-store or private, or a cookie that is set.
unfoldable pub is_private : Header → Bool
unfolding get_header has_header lower contains
is_private h =
    contains (lower (get_header (codes "Cache-Control") h)) (codes "no-store")
    || contains (lower (get_header (codes "Cache-Control") h)) (codes "private")
    || has_header (codes "Set-Cookie") h

unfoldable pub record_status : ℕ → Recorder → Recorder
record_status code r = record r {
  status = code;
  no_store = r.no_store || is_private r.inner.header;
  wrote = true;
  inner = write_header code r.inner;
}

unfoldable pub record_body : Bytes → Recorder → Recorder
unfolding record_status
record_body p r =
    let r' = if r.wrote then r else record_status 200 r in
    record r' { buf = r'.buf ++ p; inner = write p r'.inner }

unfoldable pub record_call : Call → Recorder → Recorder
unfolding record_status record_body
record_call (set k v) r = record r { inner = perform (set k v) r.inner }
record_call (add k v) r = record r { inner = perform (add k v) r.inner }
record_call (del k) r = record r { inner = perform (del k) r.inner }
record_call (status code) r = record_status code r
record_call (body p) r = record_body p r

unfoldable pub record_each : List Call → Recorder → Recorder
record_each [] r = r
record_each (c ∷ cs) r = record_each cs (record_call c r)

unfoldable pub copy_header : Header → Header → Header
unfolding add_header
copy_header dst [] = dst
copy_header dst ((k, v) ∷ src) = copy_header (add_header k v dst) src

abbrev pub clone_header : Header → Header
clone_header src = copy_header [] src

unfoldable pub cache_key : Request → Bytes
unfolding get_header contains
cache_key r =
    (if contains (get_header (codes "Accept-Encoding") r.header) (codes "gzip")
      then codes "gz"
      else codes "id")
    ++ 32 ∷ (r.host ++ 32 ∷ r.uri)

-- The replay of a stored response.
unfoldable pub replay : CacheEntry → Writer → Writer
unfolding copy_header set_header write_header write
replay e w =
    let w' = record w {
      header = set_header (codes "X-Lamund-Cache") (codes "HIT") (copy_header w.header e.header);
    } in
    write e.body (write_header 200 w')

-- The end of a miss: the answer is kept if its status is 200 and nothing forbids it.
unfoldable pub keep : ℕ → Bytes → Recorder → RespCache → RespCache
keep now key rec c =
    if rec.status == 200 && not rec.no_store
    then put key
        (record { body = rec.buf; header = clone_header rec.inner.header; expires = now + c.ttl }) c
    else c

-- What the middleware adds for a request that it does not touch: nothing.
unfoldable pub is_bypassed : Request → Bool
unfolding beq get_header
is_bypassed r =
    not (beq r.method (codes "GET"))
    || not (beq (get_header (codes "Authorization") r.header) [])
    || not (beq (get_header (codes "Cookie") r.header) [])

-- A hit is replayed; on a miss the handler runs through the recorder.
unfoldable pub answer :
    ℕ → Bytes → List Call → Option CacheEntry × RespCache → Writer → Writer × RespCache
answer later key calls (some e, c) w = (replay e w, c)
answer later key calls (none, c) w =
    let rec = record_each calls (recorder w) in (rec.inner, keep later key rec c)

-- respCache.wrap: `now` is read at the lookup and `later` when the answer is kept.
unfoldable pub serve :
    (Request → List Call) → ℕ → ℕ → Request → RespCache → Writer → Writer × RespCache
serve next now later r c w =
    if is_bypassed r
    then (perform_each (next r) w, c)
    else answer later (cache_key r) (next r) (get now (cache_key r) c) w
