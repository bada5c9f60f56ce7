-- ===== src/Access/Client.antt =====
-- internal/api/middleware.go: the credential of a request and the address of its client.
pub mod Spoof
use lamund.Prelude.{
  Bool, not, ◌&&◌, ◌||◌, Option, none, some, List, [], ◌∷◌, if◌then◌else◌, Bytes, codes, beq,
  has_prefix, split, length, drop, is_empty, trim_space, split_host,
}
use lamund.Site.Http.{Header, get_header}

-- strings.CutPrefix
unfoldable pub cut_prefix : Bytes → Bytes → Option Bytes
unfolding has_prefix
cut_prefix s p = if has_prefix s p then some (drop (length p) s) else none

abbrev trimmed : Option Bytes → Bytes
trimmed none = []
trimmed (some s) = trim_space s

unfoldable pub bearer : Header → Bytes
unfolding get_header cut_prefix
bearer h = trimmed (cut_prefix (get_header (codes "Authorization") h) (codes "Bearer "))

abbrev or_remote : Bytes → Option Bytes → Bytes
or_remote remote none = remote
or_remote remote (some host) = host

-- the host of RemoteAddr, or all of it
unfoldable pub remote_host : Bytes → Bytes
unfolding split_host
remote_host remote = or_remote remote (split_host remote)

unfoldable pub is_loopback : Bytes → Bool
unfolding beq
is_loopback host = beq host (codes "127.0.0.1") || beq host (codes "::1")

-- parts[len(parts)-1]
abbrev pub last_part : List Bytes → Bytes
last_part [] = []
last_part (p ∷ []) = p
last_part (p ∷ q ∷ ps) = last_part (q ∷ ps)

unfoldable pub client_ip : Bytes → Header → Bytes
client_ip remote h =
    if is_loopback (remote_host remote) && not (is_empty (get_header (codes "X-Forwarded-For") h))
    then trim_space (last_part (split b',' (get_header (codes "X-Forwarded-For") h)))
    else remote_host remote
