-- ===== src/Site/Cache/Replay.antt =====
-- What the response cache of internal/site/middleware.go replays after a miss.
use lamund.Prelude.{
  ℕ, ◌+◌, ◌≤◌, ◌<◌, ◌≡◌, refl, sym, ap, true, false, none, some, List, [], ◌∷◌, ◌++◌, arith, Bytes,
  codes, beq, beq_refl, beq_iff, length, lookup-insert, length-delete-le,
}
use lamund.Site.Http.{
  Header, Writer, fresh, set_header, has_header, del_header, write_header, write, Call, set, add,
  del, status, body, perform_each, Request,
}
use lamund.Site.Cache.{
  CacheEntry, RespCache, Recorder, recorder, record_call, record_each, replay, answer, serve,
  is_bypassed, cache_key, get_entry, get, keep, put,
}
use lamund.Site.Cache.Recording.{copy_header-append, inner-record_each, body-record_each}

get-put :
    (now : ℕ) (key : Bytes) (e : CacheEntry) (c : RespCache)
    → length c.entries < c.max
    → now ≤ e.expires
    → (get now key (put key e c)).0 ≡ some e
unfolding get put get_entry
get-put now key e c room alive = ground (arith, lookup-insert key key e c.entries, beq_refl key)

-- The recorder after the handler's calls, on a response that has nothing in it yet.
abbrev pub recorded : List Call → Recorder
recorded calls = record_each calls (recorder fresh)

abbrev entry_of : List Call → ℕ → CacheEntry
entry_of calls expires = record {
  body = (recorded calls).buf;
  header = (recorded calls).inner.header;
  expires = expires;
}

keep-recorded :
    (later : ℕ) (key : Bytes) (calls : List Call) (c : RespCache)
    → (recorded calls).status ≡ 200
    → (recorded calls).no_store ≡ false
    → keep later key (recorded calls) c ≡ put key (entry_of calls (later + c.ttl)) c
unfolding keep
keep-recorded later key calls c ok kept = rw (ok, kept) (rw (copy_header-append) refl)

get-room :
    (now : ℕ) (key : Bytes) (c : RespCache)
    → length c.entries < c.max
    → (length (get now key c).1.entries < (get now key c).1.max) × ((get now key c).1.ttl ≡ c.ttl)
unfolding get get_entry
get-room now key c room = ground (arith, length-delete-le key c.entries)

miss :
    (next : Request → List Call) (now later : ℕ) (r : Request) (c : RespCache) (w : Writer)
    → is_bypassed r ≡ false
    → (get now (cache_key r) c).0 ≡ none
    → serve next now later r c w ≡ (
      (record_each (next r) (recorder w)).inner,
      keep later (cache_key r) (record_each (next r) (recorder w)) (get now (cache_key r) c).1,
    )
unfolding serve answer
miss next now later r c w cached missed = rw cached (rw missed refl)

hit :
    (next : Request → List Call) (now later : ℕ) (r : Request) (c : RespCache) (w : Writer)
    (e : CacheEntry)
    → is_bypassed r ≡ false
    → (get now (cache_key r) c).0 ≡ some e
    → (serve next now later r c w).0 ≡ replay e w
unfolding serve answer
hit next now later r c w e cached found = rw cached (rw found refl)

body-replay : (e : CacheEntry) → (replay e fresh).body ≡ e.body
unfolding replay write write_header
body-replay e = refl

sent-replay :
    (e : CacheEntry)
    → (replay e fresh).sent ≡ some (200, set_header (codes "X-Lamund-Cache") (codes "HIT") e.header)
unfolding replay write write_header
sent-replay e = rw (copy_header-append) refl

-- A stored answer is alive and the cache has room for it.
pub record IsStored (r : Request) (now : ℕ) (calls : List Call) (c : RespCache) : Type 0 where
  pub cached : is_bypassed r ≡ false
  pub missed : (get now (cache_key r) c).0 ≡ none
  pub ok : (recorded calls).status ≡ 200
  pub allowed : (recorded calls).no_store ≡ false
  pub room : length c.entries < c.max

stored :
    (next : Request → List Call) (now later now' : ℕ) (r : Request) (c : RespCache)
    → IsStored r now (next r) c
    → now' ≤ later + c.ttl
    → (get now' (cache_key r) (serve next now later r c fresh).1).0
      ≡ some (entry_of (next r) (later + c.ttl))
stored next now later now' r c s alive =
    let (room, ttl) = get-room now (cache_key r) c s.room in
    rw (miss next now later r c fresh s.cached s.missed) (
      rw (keep-recorded later (cache_key r) (next r) (get now (cache_key r) c).1 s.ok s.allowed)
        (rw ttl (get-put now' (cache_key r) (entry_of (next r) (later + c.ttl)) _ room alive)))

pub serve-serve :
    (next next' : Request → List Call) (now later now' later' : ℕ) (r : Request) (c : RespCache)
    → IsStored r now (next r) c
    → now' ≤ later + c.ttl
    → ((serve next' now' later' r (serve next now later r c fresh).1 fresh).0.body
        ≡ (serve next now later r c fresh).0.body)
      × ((serve next' now' later' r (serve next now later r c fresh).1 fresh).0.sent
          ≡ some (
            200,
            set_header
                (codes "X-Lamund-Cache")
                (codes "HIT")
                (serve next now later r c fresh).0.header,
          ))
serve-serve next next' now later now' later' r c s alive =
    let again =
      hit next' now' later' r (serve next now later r c fresh).1 fresh
        (entry_of (next r) (later + c.ttl)) s.cached (stored next now later now' r c s alive) in
    let first = ap (λ p. p.0) (miss next now later r c fresh s.cached s.missed) in
    (
      rw (again, first, body-replay) (sym (body-record_each (next r) (recorder fresh) [] refl)),
      rw (again, first) (sent-replay (entry_of (next r) (later + c.ttl))),
    )

-- The handler changes the header and answers nothing.
abbrev pub IsSilent : List Call → Type 0
IsSilent [] = Unit
IsSilent (set k v ∷ cs) = IsSilent cs
IsSilent (add k v ∷ cs) = IsSilent cs
IsSilent (del k ∷ cs) = IsSilent cs
IsSilent (status code ∷ cs) = ⊥
IsSilent (body p ∷ cs) = ⊥

silent-record_each :
    (cs : List Call) (r : Recorder)
    → IsSilent cs
    → ((record_each cs r).status ≡ r.status) × ((record_each cs r).no_store ≡ r.no_store)
unfolding record_each record_call
silent-record_each [] r h = (refl, refl)
silent-record_each (set k v ∷ cs) r h = silent-record_each cs _ h
silent-record_each (add k v ∷ cs) r h = silent-record_each cs _ h
silent-record_each (del k ∷ cs) r h = silent-record_each cs _ h
silent-record_each (status code ∷ cs) r h = absurd h
silent-record_each (body p ∷ cs) r h = absurd h

has_header-append :
    (k : Bytes) (g h : Header) → has_header k g ≡ true → has_header k (g ++ h) ≡ true
unfolding has_header
has_header-append k [] h e = cc
has_header-append k ((j, v) ∷ g) h e = ground (arith, has_header-append k g h)

has_header-del_header :
    (k j : Bytes) (h : Header)
    → beq j k ≡ false
    → has_header k h ≡ true
    → has_header k (del_header j h) ≡ true
unfolding has_header del_header
has_header-del_header k j [] ne e = cc
has_header-del_header k j ((i, v) ∷ h) ne e =
    ground (arith, has_header-del_header k j h ne, beq_iff i j, beq_iff i k, beq_iff j k)

has_header-set_header :
    (k j v : Bytes) (h : Header)
    → beq j k ≡ false
    → has_header k h ≡ true
    → has_header k (set_header j v h) ≡ true
unfolding set_header
has_header-set_header k j v h ne e =
    has_header-append k (del_header j h) ((j, v) ∷ []) (has_header-del_header k j h ne e)

-- A cookie that a handler sets without writing an answer is stored, and sent in the answer to an
-- equal request within the lifetime, if the first was cacheable, found no entry and found room.
pub cookie_is_replayed :
    (next next' : Request → List Call) (now later now' later' : ℕ) (r : Request) (c : RespCache)
    → IsSilent (next r)
    → has_header (codes "Set-Cookie") (perform_each (next r) fresh).header ≡ true
    → is_bypassed r ≡ false
    → (get now (cache_key r) c).0 ≡ none
    → length c.entries < c.max
    → now' ≤ later + c.ttl
    → (h : Header) × ((serve next' now' later' r (serve next now later r c fresh).1 fresh).0.sent
        ≡ some (200, h))
      × (has_header (codes "Set-Cookie") h ≡ true)
cookie_is_replayed next next' now later now' later' r c silent cookie cached missed room alive =
    let (same_status, same_flag) = silent-record_each (next r) (recorder fresh) silent in
    let s : IsStored r now (next r) c = record {
      cached = cached;
      missed = missed;
      ok = same_status;
      allowed = same_flag;
      room = room;
    } in
    let first = ap (λ p. p.0) (miss next now later r c fresh cached missed) in
    let set_there : has_header (codes "Set-Cookie") (serve next now later r c fresh).0.header
        ≡ true =
      rw (first, inner-record_each (next r) (recorder fresh)) cookie in
    (
      _,
      (serve-serve next next' now later now' later' r c s alive).1,
      has_header-set_header _ _ _ _ (unfold beq in refl) set_there,
    )
