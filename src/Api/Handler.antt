-- ===== src/Api/Handler.antt =====
-- Handlers of internal/api: steps on the store that an early return may end. A response is a status
-- and a body, the texts of messages left out; whether notifyReload was called is part of it.
pub mod Rules
use lamund.Prelude.{ℕ, Bool, true, false, Option, none, some, List, if◌then◌else◌, Bytes}
use lamund.Dns.Types.{DnsZone, DnsRecord, DnsSettings}
use lamund.Store.Conn.{Result, ok, err, Conn, Action}
use lamund.Store.Accounts.{Account, AccountQuota, AccountKey}
use lamund.Store.Tables.{Tables, Team, TeamMember}

pub data Body : Type 0 where
  message : Body
  zones_body : List (DnsZone × ℕ) → Body
  zone_body : Option DnsZone → List DnsRecord → List Bytes → Body
  records_body : List DnsRecord → Body
  settings_body : DnsSettings → Body
  cover_body : Bool → Bytes → Bytes → Body
  teams_body : List (Team × ℕ) → Body
  team_body : Team → List (TeamMember × Bytes) → Body
  member_body : ℕ → Bytes → Body
  token_body : Bytes → Body
  users_body : List (Account × Bool × Option AccountQuota) → Body
  user_body : ℕ → Bytes → Bytes → Body
  quota_body : AccountQuota → Body
  flag_body : Bool → Body
  enrolment_body : Bytes → Bytes → Body
  codes_body : List Bytes → Body
  session_body : Bytes → Bytes → Body
  pair_body : Bytes → Bytes → Body
  keys_body : List AccountKey → Body
  key_body : ℕ → Bytes → Bytes → Body

pub record Response : Type 0 where
  pub status : ℕ
  pub body : Body
  pub reloads : Bool

-- A handler has written its response, or goes on.
pub data Step (A : Type 0) : Type 0 where
  done : Response → Step A
  next : A → Step A

-- on a database of any kind, and on the tables of zones and teams
abbrev pub HandlerOn : Type 0 → Type 0 → Type 0
HandlerOn D A = Conn D → Step A × Conn D

abbrev pub Handler : Type 0 → Type 0
Handler A = HandlerOn Tables A

-- writeErr and writeJSON
abbrev pub plain_response : ℕ → Response
plain_response status = record { status = status; body = message; reloads = false }

module _ {D A : Type 0} where
  abbrev pub go : A → HandlerOn D A
  go a c = (next a, c)

  abbrev pub stop : Response → HandlerOn D A
  stop r c = (done r, c)

  abbrev pub write_err : ℕ → HandlerOn D A
  write_err status = stop (plain_response status)

  -- A call of the store, its result in hand.
  abbrev pub attempt : Action D A → HandlerOn D (Result A)
  attempt m c = let (r, c') = m c in (next r, c')

  abbrev answered : ℕ → Result A × Conn D → Step A × Conn D
  answered status (ok a, c) = (next a, c)
  answered status (err e, c) = (done (plain_response status), c)

  -- if err != nil { writeErr(w, status, ...); return }
  abbrev pub or_status : ℕ → Action D A → HandlerOn D A
  or_status status m c = answered status (m c)

  -- nil is answered with the status
  abbrev pub some_or : ℕ → Option A → HandlerOn D A
  some_or status none = write_err status
  some_or status (some a) = go a

  -- An error is the zero value.
  abbrev value_or : A → Result A × Conn D → Step A × Conn D
  value_or zero_value (ok a, c) = (next a, c)
  value_or zero_value (err e, c) = (next zero_value, c)

  abbrev pub ignoring : A → Action D A → HandlerOn D A
  ignoring zero_value m c = value_or zero_value (m c)

abbrev pub stop_if : {D : Type 0} → Bool → ℕ → HandlerOn D Unit
stop_if b status = if b then write_err status else go tt

abbrev stepped : {D A B : Type 0} → (A → HandlerOn D B) → Step A × Conn D → Step B × Conn D
stepped f (next a, c) = f a c
stepped f (done r, c) = (done r, c)

infixl 5 ◌>>=◌ ◌>>◌
abbrev pub ◌>>=◌ : {D A B : Type 0} → HandlerOn D A → (A → HandlerOn D B) → HandlerOn D B
◌>>=◌ m f c = stepped f (m c)

abbrev pub ◌>>◌ : {D A B : Type 0} → HandlerOn D A → HandlerOn D B → HandlerOn D B
m >> k = m >>= λ _. k

abbrev final : {D : Type 0} → Step Response × Conn D → Response × Conn D
final (next r, c) = (r, c)
final (done r, c) = (r, c)

-- What the client gets.
abbrev pub handled : {D : Type 0} → HandlerOn D Response → Conn D → Response × Conn D
handled m c = final (m c)

abbrev pub reply : {D : Type 0} → ℕ → Body → HandlerOn D Response
reply status body = go (record { status = status; body = body; reloads = false })

-- notifyReload, then the response
abbrev pub reply_reloaded : {D : Type 0} → ℕ → Body → HandlerOn D Response
reply_reloaded status body = go (record { status = status; body = body; reloads = true })
