-- ===== src/Examples/Site.antt =====
-- Requests to a site: the routes and the response cache of internal/site.
use lamund.Prelude.{
  ℕ, ◌+◌, ◌≡◌, refl, true, false, none, some, List, [], ◌∷◌, arith, Bytes, codes, beq, Lacks,
  lookup,
}
use lamund.Site.Http.{Header, fresh, Call, set, body, perform_each, has_header, Request, set_header}
use lamund.Site.Route.{Middleware, Route, matches, compile, dispatch}
use lamund.Site.Route.Dispatch.{First, hit, miss, wrapped, dispatch-First}
use lamund.Site.Cache.{RespCache, new_cache, get, is_bypassed, cache_key, serve}
use lamund.Site.Cache.Replay.{cookie_is_replayed}

whole_segments : matches (codes "/api") (codes "/apix") ≡ false
unfolding matches
whole_segments = refl

-- A request is its path, a response a number; a middleware doubles it or adds one.
abbrev twice : Middleware Bytes ℕ
twice h r = h r + h r

abbrev api : Route Bytes ℕ
api = record { match = codes "/api"; handler = λ r. 7; middleware = twice ∷ [] }

abbrev plus_one : Middleware Bytes ℕ
plus_one h r = h r + 1

abbrev root : Route Bytes ℕ
root = record { match = codes "/"; handler = λ r. 1; middleware = twice ∷ plus_one ∷ [] }

not_api : matches api.match (codes "/apix") ≡ false
unfolding matches
not_api = refl

is_root : matches root.match (codes "/apix") ≡ true
unfolding matches
is_root = refl

root-First : First (codes "/apix") root (api ∷ root ∷ [])
root-First = miss not_api (hit is_root)

dispatch-First_example :
    dispatch (λ r. r) (λ r. 404) (compile (api ∷ root ∷ [])) (codes "/apix")
    ≡ wrapped root.middleware root.handler (codes "/apix")
dispatch-First_example =
    dispatch-First (λ r. r) (λ r. 404) root (codes "/apix") (api ∷ root ∷ []) root-First

-- The first middleware is the outermost: one is added, and then the sum is doubled.
first_is_outer : wrapped root.middleware root.handler (codes "/apix") ≡ 4
first_is_outer = refl

abbrev page : Request
page = record { method = codes "GET"; host = codes "toko.id"; uri = codes "/"; header = [] }

abbrev greet : Request → List Call
greet r = set (codes "Content-Type") (codes "text/plain") ∷ body (codes "halo") ∷ []

abbrev tracks : Request → List Call
tracks r = set (codes "Set-Cookie") (codes "id=1") ∷ []

abbrev empty_cache : RespCache
empty_cache = record { entries = []; ttl = 60; max = 1024 }

starts : new_cache 60 ≡ empty_cache
unfolding new_cache
starts = refl

page-is_cached : is_bypassed page ≡ false
unfolding is_bypassed
page-is_cached = refl

page-is_missed : (get 5 (cache_key page) empty_cache).0 ≡ none
unfolding get cache_key lookup
page-is_missed = refl

tracks-cookie : has_header (codes "Set-Cookie") (perform_each (tracks page) fresh).header ≡ true
unfolding has_header perform_each set_header beq
tracks-cookie = refl

cookie_is_replayed_example :
    (h : Header) × ((serve greet 7 8 page (serve tracks 5 6 page empty_cache fresh).1 fresh).0.sent
      ≡ some (200, h))
    × (has_header (codes "Set-Cookie") h ≡ true)
cookie_is_replayed_example =
    cookie_is_replayed tracks greet 5 6 7 8 page empty_cache tt tracks-cookie page-is_cached
      page-is_missed (omega arith) (omega arith)

host-Lacks : Lacks 32 (codes "toko.id")
host-Lacks = ground arith
