-- ===== src/Access/Client/Spoof.antt =====
-- clientIP of internal/api/middleware.go trusts the forwarding header from the loopback only.
use lamund.Prelude.{
  ℕ, ◌≡◌, refl, ap, true, false, List, [], ◌∷◌, ◌++◌, Bytes, codes, split, join, Lacks, split-join,
  split-append_sep, is_empty, trim_space,
}
use lamund.Site.Http.{Header, get_header}
use lamund.Access.Client.{remote_host, is_loopback, last_part, client_ip}

-- Whatever it sends, a client that is not on the loopback has the host of its own connection.
pub client_ip_direct :
    (remote : Bytes) (h : Header)
    → is_loopback (remote_host remote) ≡ false
    → client_ip remote h ≡ remote_host remote
unfolding client_ip
client_ip_direct remote h direct = rw direct refl

last_part-append : (ps : List Bytes) (t : Bytes) → last_part (ps ++ t ∷ []) ≡ t
last_part-append [] t = refl
last_part-append (p ∷ []) t = refl
last_part-append (p ∷ q ∷ ps) t = last_part-append (q ∷ ps) t

last_part-split : (sep : ℕ) (s t : Bytes) → Lacks sep t → last_part (split sep (s ++ sep ∷ t)) ≡ t
unfolding join
last_part-split sep s t h =
    let one : split sep t ≡ t ∷ [] = split-join sep (t ∷ []) (cc) (h, tt) in
    rw (split-append_sep, one) (last_part-append (split sep s) t)

nonempty : (s t : Bytes) → is_empty (s ++ b',' ∷ t) ≡ false
nonempty [] t = refl
nonempty (c ∷ s) t = refl

-- Behind the proxy the address is what the proxy appended, whatever the client put before it.
pub client_ip_proxied :
    (remote : Bytes) (h : Header) (sent own : Bytes)
    → is_loopback (remote_host remote) ≡ true
    → get_header (codes "X-Forwarded-For") h ≡ sent ++ b',' ∷ own
    → Lacks b',' own
    → client_ip remote h ≡ trim_space own
unfolding client_ip
client_ip_proxied remote h sent own local forwarded plain =
    let present : is_empty (get_header (codes "X-Forwarded-For") h) ≡ false =
      rw forwarded (nonempty sent own) in
    rw (local, present, forwarded) (ap trim_space (last_part-split b',' sent own plain))
