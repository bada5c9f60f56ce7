-- ===== src/Site/Route/Dispatch.antt =====
-- The first matching route of internal/site/route.go serves the request.
use lamund.Prelude.{◌≡◌, refl, ap, true, false, List, [], ◌∷◌, ◌++◌, Bytes, All}
use mathlib.Core.List.{reverse, reverse-cons}
use lamund.Site.Route.{Handler, Middleware, Route, matches, wrap_each, compile, dispatch}

module _ {Request Response : Type 0} where
  -- The handler inside its middleware, the first of the list outermost.
  abbrev pub wrapped :
      List (Middleware Request Response) → Handler Request Response → Handler Request Response
  wrapped [] h = h
  wrapped (mw ∷ rest) h = mw (wrapped rest h)

  -- `rt` is the first route whose match accepts the path.
  pub data First (path : Bytes) (rt : Route Request Response)
      : List (Route Request Response) → Type 0 where
    hit :
        {rest : List (Route Request Response)}
        → matches rt.match path ≡ true
        → First path rt (rt ∷ rest)
    miss :
        {other : Route Request Response} {rest : List (Route Request Response)}
        → matches other.match path ≡ false
        → First path rt rest
        → First path rt (other ∷ rest)

  wrap_each-append :
      (ms ns : List (Middleware Request Response)) (h : Handler Request Response)
      → wrap_each (ms ++ ns) h ≡ wrap_each ns (wrap_each ms h)
  unfolding wrap_each
  wrap_each-append [] ns h = refl
  wrap_each-append (m ∷ ms) ns h = wrap_each-append ms ns (m h)

  wrap_each-reverse :
      (ms : List (Middleware Request Response)) (h : Handler Request Response)
      → wrap_each (reverse ms) h ≡ wrapped ms h
  unfolding wrap_each
  wrap_each-reverse [] h = refl
  wrap_each-reverse (m ∷ ms) h = rw (reverse-cons, wrap_each-append) (ap m (wrap_each-reverse ms h))

  module _ (path : Request → Bytes) (not_found : Handler Request Response) where
    -- The first matching route answers, inside its middleware in the order of the list.
    pub dispatch-First :
        (rt : Route Request Response) (r : Request) (routes : List (Route Request Response))
        → First (path r) rt routes
        → dispatch path not_found (compile routes) r ≡ wrapped rt.middleware rt.handler r
    unfolding compile dispatch
    dispatch-First rt r _ (hit h) = rw h (rw (wrap_each-reverse rt.middleware rt.handler))
    dispatch-First rt r _ (miss h later) = rw h (dispatch-First rt r _ later)

    -- With no matching route the answer is the 404.
    pub dispatch-not_found :
        (routes : List (Route Request Response)) (r : Request)
        → All (λ rt. matches rt.match (path r) ≡ false) routes
        → dispatch path not_found (compile routes) r ≡ not_found r
    unfolding compile dispatch
    dispatch-not_found [] r h = refl
    dispatch-not_found (rt ∷ rest) r h = rw h.0 (dispatch-not_found rest r h.1)
