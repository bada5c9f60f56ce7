-- ===== src/Site/Http.antt =====
-- The parts of net/http that internal/site/middleware.go works with: a header as the list of its
-- lines, and a ResponseWriter as a record that the calls of a handler fill. Header names are in
-- their canonical form, as in the source.
use lamund.Prelude.{
  ℕ, Bool, false, ◌||◌, Option, none, some, List, [], ◌∷◌, ◌++◌, if◌then◌else◌, Bytes, beq,
}

abbrev pub Header : Type 0
Header = List (Bytes × Bytes)

-- Header.Get: the first value, or the empty text
unfoldable pub get_header : Bytes → Header → Bytes
get_header k [] = []
get_header k ((j, v) ∷ h) = if beq j k then v else get_header k h

-- whether Header.Values(k) has an element
unfoldable pub has_header : Bytes → Header → Bool
has_header k [] = false
has_header k ((j, v) ∷ h) = beq j k || has_header k h

-- Header.Del
unfoldable pub del_header : Bytes → Header → Header
del_header k [] = []
del_header k ((j, v) ∷ h) = let rest = del_header k h in if beq j k then rest else (j, v) ∷ rest

-- Header.Add
unfoldable pub add_header : Bytes → Bytes → Header → Header
add_header k v h = h ++ (k, v) ∷ []

-- Header.Set
unfoldable pub set_header : Bytes → Bytes → Header → Header
unfolding del_header add_header
set_header k v h = add_header k v (del_header k h)

-- What the server has of a response: the header that a handler may still change, the status and
-- the header that were sent, and the body.
pub record Writer : Type 0 where
  pub header : Header
  pub sent : Option (ℕ × Header)
  pub body : Bytes

abbrev pub fresh : Writer
fresh = record { header = []; sent = none; body = [] }

-- The first call of WriteHeader sends the header, a later one is ignored.
unfoldable pub write_header : ℕ → Writer → Writer
write_header code w = elim w.sent [
  | none ↦ record w { sent = some (code, w.header) }
  | some line ↦ w
]

-- Write sends the status 200 first, if nothing was sent.
unfoldable pub write : Bytes → Writer → Writer
unfolding write_header
write p w = let w' = write_header 200 w in record w' { body = w'.body ++ p }

-- The calls that a handler makes of its ResponseWriter.
pub data Call : Type 0 where
  set : Bytes → Bytes → Call
  add : Bytes → Bytes → Call
  del : Bytes → Call
  status : ℕ → Call
  body : Bytes → Call

abbrev edit : (Header → Header) → Writer → Writer
edit f w = record w { header = f w.header }

unfoldable pub perform : Call → Writer → Writer
unfolding write_header write
perform (set k v) w = edit (set_header k v) w
perform (add k v) w = edit (add_header k v) w
perform (del k) w = edit (del_header k) w
perform (status code) w = write_header code w
perform (body p) w = write p w

unfoldable pub perform_each : List Call → Writer → Writer
unfolding perform
perform_each [] w = w
perform_each (c ∷ cs) w = perform_each cs (perform c w)

pub record Request : Type 0 where
  pub method : Bytes
  pub host : Bytes
  pub uri : Bytes
  pub header : Header
