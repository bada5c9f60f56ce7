-- ===== src/Vhost.antt =====
-- internal/vhost/table.go: the routing table from host names to handlers. The lock makes each
-- method one step on the map; a handler is a value of any type.
pub mod Laws
use lamund.Prelude.{
  ℕ, Bool, true, false, ◌&&◌, Option, none, some, List, [], ◌∷◌, ltb, ◌==◌, if◌then◌else◌, Bytes,
  codes, beq, length, Map, lookup, insert, delete, keys, lower, trim_suffix, split_host,
}

pub record Route (Handler : Type 0) : Type 0 where
  pub domain : Bytes
  pub handler : Handler

pub record Table (Handler : Type 0) : Type 0 where
  pub routes : Map (Route Handler)

abbrev or_self : Bytes → Option Bytes → Bytes
or_self host none = host
or_self host (some h) = h

-- The host without its port and final dot, in lower case.
unfoldable pub normalize : Bytes → Bytes
unfolding split_host lower trim_suffix beq
normalize host = lower (trim_suffix (or_self host (split_host host)) (codes "."))

-- the order of Go's texts
unfoldable pub text_le : Bytes → Bytes → Bool
text_le [] t = true
text_le (c ∷ s) [] = false
text_le (c ∷ s) (d ∷ t) = if ltb c d then true else (c == d) && text_le s t

-- sort.Strings, as an insertion sort
unfoldable pub insert_sorted : Bytes → List Bytes → List Bytes
unfolding text_le
insert_sorted a [] = a ∷ []
insert_sorted a (b ∷ l) =
    let rest = insert_sorted a l in if text_le a b then a ∷ b ∷ l else b ∷ rest

unfoldable pub sort_texts : List Bytes → List Bytes
unfolding insert_sorted
sort_texts [] = []
sort_texts (a ∷ l) = insert_sorted a (sort_texts l)

module _ {Handler : Type 0} where
  unfoldable pub new_table : Table Handler
  new_table = record { routes = [] }

  unfoldable pub get : Bytes → Table Handler → Option (Route Handler)
  get host t = if beq host [] then none else lookup (normalize host) t.routes

  unfoldable pub upsert : Route Handler → Table Handler → Table Handler
  upsert r t = record { routes = insert (normalize r.domain) r t.routes }

  unfoldable pub remove : Bytes → Table Handler → Table Handler
  remove domain t = record { routes = delete (normalize domain) t.routes }

  unfoldable pub len : Table Handler → ℕ
  len t = length t.routes

  unfoldable pub domains : Table Handler → List Bytes
  domains t = sort_texts (keys t.routes)
