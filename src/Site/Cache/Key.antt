-- ===== src/Site/Cache/Key.antt =====
-- The cache key of internal/site/middleware.go tells requests apart.
use lamund.Prelude.{
  ◌≡◌, refl, sym, Bool, true, false, [], ◌∷◌, ◌++◌, arith, if◌then◌else◌, Bytes, codes, contains,
  Lacks,
}
use lamund.Site.Http.{Request, get_header}
use lamund.Site.Cache.{cache_key}

-- Whether the client takes gzip.
abbrev pub takes_gzip : Request → Bool
takes_gzip r = contains (get_header (codes "Accept-Encoding") r.header) (codes "gzip")

split_at_space :
    (a b s t : Bytes) → Lacks 32 a → Lacks 32 b → a ++ 32 ∷ s ≡ b ++ 32 ∷ t → (a ≡ b) × (s ≡ t)
split_at_space [] [] s t h k e = (refl, cc)
split_at_space [] (d ∷ b) s t h k e = absurd (k.0 (cc))
split_at_space (c ∷ a) [] s t h k e = absurd (h.0 (cc))
split_at_space (c ∷ a) (d ∷ b) s t h k e =
    let (same, rest) = split_at_space a b s t h.1 k.1 (cc) in (cc, rest)

tag : Bool → Bytes
tag b = if b then codes "gz" else codes "id"

gz_ne_id : {s t : Bytes} → codes "gz" ++ s ≡ codes "id" ++ t → ⊥
gz_ne_id e = ground arith

tag-injective :
    (a b : Bool) (x y u v : Bytes)
    → Lacks 32 x
    → Lacks 32 y
    → tag a ++ 32 ∷ (x ++ 32 ∷ u) ≡ tag b ++ 32 ∷ (y ++ 32 ∷ v)
    → (a ≡ b) × (x ≡ y) × (u ≡ v)
unfolding tag
tag-injective true true x y u v h k e =
    let (same, rest) = split_at_space x y u v h k (cc) in (refl, same, rest)
tag-injective false false x y u v h k e =
    let (same, rest) = split_at_space x y u v h k (cc) in (refl, same, rest)
tag-injective true false x y u v h k e = absurd (gz_ne_id e)
tag-injective false true x y u v h k e = absurd (gz_ne_id (sym e))

-- Two requests share an entry only if they agree in the encoding, the host and the URI, where a
-- host has no space.
pub cache_key-injective :
    (r q : Request)
    → Lacks 32 r.host
    → Lacks 32 q.host
    → cache_key r ≡ cache_key q
    → (takes_gzip r ≡ takes_gzip q) × (r.host ≡ q.host) × (r.uri ≡ q.uri)
unfolding cache_key tag
cache_key-injective r q h k e =
    tag-injective (takes_gzip r) (takes_gzip q) r.host q.host r.uri q.uri h k e
