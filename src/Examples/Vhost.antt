-- ===== src/Examples/Vhost.antt =====
-- A table of internal/vhost/table.go with two hosts.
use lamund.Prelude.{ℕ, ◌≡◌, refl, [], ◌∷◌, codes, insert}
use lamund.Vhost.{sort_texts, Route, Table, normalize, upsert, new_table, domains}

abbrev first : Route ℕ
first = record { domain = codes "Toko.id."; handler = 1 }

abbrev second : Route ℕ
second = record { domain = codes "blog.id"; handler = 2 }

abbrev table : Table ℕ
table = record { routes = (codes "toko.id", first) ∷ [] }

port_is_dropped : normalize (codes "TOKO.id:8080") ≡ codes "toko.id"
unfolding normalize
port_is_dropped = refl

starts : upsert first new_table ≡ table
unfolding upsert new_table normalize insert
starts = refl

sorted : domains (upsert second table) ≡ codes "blog.id" ∷ codes "toko.id" ∷ []
unfolding domains upsert normalize insert sort_texts
sorted = refl
