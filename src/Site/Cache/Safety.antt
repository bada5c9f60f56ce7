-- ===== src/Site/Cache/Safety.antt =====
-- What the response cache of internal/site/middleware.go never does: grow without bound, or keep
-- an answer that is bound to a user.
use lamund.Prelude.{◌≤◌, ◌≡◌, refl, true, false, List, [], ◌∷◌, Bytes, length, All}
use lamund.Site.Http.{Writer, Call, set, add, del, status, body}
use lamund.Site.Cache.{CacheEntry, RespCache, Recorder, is_private}

abbrev pub IsBounded : RespCache → Type 0
IsBounded c = length c.entries ≤ c.max

-- An answer may be shared by all clients.
abbrev pub IsPublic : Bytes × CacheEntry → Type 0
IsPublic entry = is_private entry.1.header ≡ false

-- The calls leave the header alone.
abbrev pub NoEdits : List Call → Type 0
NoEdits [] = Unit
NoEdits (status code ∷ cs) = NoEdits cs
NoEdits (body p ∷ cs) = NoEdits cs
NoEdits (_ ∷ cs) = ⊥

-- The handler answers, and changes the header only before it does.
abbrev pub IsOrderly : List Call → Type 0
IsOrderly [] = ⊥
IsOrderly (status code ∷ cs) = NoEdits cs
IsOrderly (body p ∷ cs) = NoEdits cs
IsOrderly (set k v ∷ cs) = IsOrderly cs
IsOrderly (add k v ∷ cs) = IsOrderly cs
IsOrderly (del k ∷ cs) = IsOrderly cs

-- A recorder that has seen a private header refuses to store.
abbrev Guards : Recorder → Type 0
Guards r = (r.no_store ≡ false → is_private r.inner.header ≡ false) × (r.wrote ≡ true)

wrote-edit : (f : Writer → Writer) (r : Recorder) → (record r { inner = f r.inner }).wrote ≡ r.wrote
wrote-edit f r = refl

-- What the cache promises of its entries.
pub record IsSafe (c : RespCache) : Type 0 where
  pub bounded : IsBounded c
  pub shared : All IsPublic c.entries
