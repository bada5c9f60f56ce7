-- ===== src/Site/Route.antt =====
-- internal/site/route.go: matchers, the compilation of a route list and its dispatch. A handler is
-- a function of the request into whatever a response is; `http.NotFound` is the argument `not_found`.
pub mod Segments
pub mod Dispatch
use lamund.Prelude.{
  Bool, true, ◌||◌, List, [], ◌∷◌, ◌++◌, if◌then◌else◌, Bytes, beq, has_prefix, trim, is_slash,
}
use mathlib.Core.List.{reverse}

-- Match.Matches on the URL's path; the match is its field PathPrefix.
unfoldable pub matches : Bytes → Bytes → Bool
unfolding beq has_prefix trim
matches prefix path =
    if beq prefix [] || beq prefix (b'/' ∷ [])
    then true
    else beq path (b'/' ∷ trim is_slash prefix)
      || has_prefix path ((b'/' ∷ trim is_slash prefix) ++ b'/' ∷ [])

module _ (Request Response : Type 0) where
  abbrev pub Handler : Type 0
  Handler = Request → Response

  abbrev pub Middleware : Type 0
  Middleware = Handler → Handler

pub record Route (Request Response : Type 0) : Type 0 where
  pub match : Bytes
  pub handler : Handler Request Response
  pub middleware : List (Middleware Request Response)

pub record CompiledRoute (Request Response : Type 0) : Type 0 where
  pub match : Bytes
  pub handler : Handler Request Response

module _ {Request Response : Type 0} where
  -- the loop of Compile over the middleware from the last to the first, on the reversed list
  unfoldable pub wrap_each :
      List (Middleware Request Response) → Handler Request Response → Handler Request Response
  wrap_each [] h = h
  wrap_each (mw ∷ rest) h = wrap_each rest (mw h)

  unfoldable pub compile : List (Route Request Response) → List (CompiledRoute Request Response)
  unfolding wrap_each
  compile [] = []
  compile (rt ∷ rest) =
      record { match = rt.match; handler = wrap_each (reverse rt.middleware) rt.handler }
      ∷ compile rest

  -- dispatcher.ServeHTTP
  unfoldable pub dispatch :
      (Request → Bytes)
      → Handler Request Response
      → List (CompiledRoute Request Response)
      → Handler Request Response
  dispatch path not_found [] r = not_found r
  dispatch path not_found (rt ∷ rest) r =
      if matches rt.match (path r) then rt.handler r else dispatch path not_found rest r
