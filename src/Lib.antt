-- ===== src/Lib.antt =====
-- Verification of lamund, a self-hosted web platform: one daemon that serves sites by host name,
-- answers DNS for hosted zones, and offers an API to a panel.
--
-- How the parts interact: a request that reaches the data plane is looked up by its host
-- (internal/vhost), and the site's routes send it through middleware, the response cache among
-- it, to a handler (internal/site). The DNS server (internal/dns) answers from a snapshot that is
-- rebuilt from the store's rows. The API checks host names (internal/store/domain.go) before they
-- become sites or zones, and searches users (internal/api/usersearch.go). Its handlers stand behind
-- a login with a rate limit and a second factor (internal/auth, internal/api/middleware.go) and
-- behind quotas (internal/quota). A supervisor keeps the processes of the apps running
-- (internal/runner).
--
-- Which file models what:
--   Domain            internal/store/domain.go: ValidateDomain; its characterisation in Domain/Rules
--   Site/Http         the calls of net/http that the middleware makes
--   Site/Route        internal/site/route.go: Matches, Compile, ServeHTTP
--   Site/Cache        internal/site/middleware.go: respCache, cacheRecorder, copyHeader
--   Vhost             internal/vhost/table.go: normalize and the methods of Table
--   Dns/Types         the rows of internal/store/dns.go, and resource records
--   Dns/Records       internal/dns/zones.go: toRR, chunkTXT
--   Dns/Zones         internal/dns/zones.go: Find, BuildSnapshot, SOA, NS, Match, filterByType;
--                     internal/dns/reloadable.go: Reload
--   Dns/Rate          internal/dns/handler.go: rrlAllow, rrlEvict
--   Dns/Server        internal/dns/handler.go: ServeDNS
--   Access/Limiter    internal/api/middleware.go: limiter
--   Access/Client     internal/api/middleware.go: bearer, clientIP
--   Access/Crypto     the libraries that internal/auth calls, and its Claims; Access/Jwt has the
--                     laws of the JWT library
--   Access/Password   internal/auth/password.go: HashPassword, VerifyPassword, decodeHash
--   Access/Totp       internal/auth/totp.go: TOTPCodeAt, VerifyTOTP
--   Access/Token      internal/auth/token.go: Issue, IssueMFAPending, Parse, ParseMFAPending
--   Access/Accounts   internal/store/users.go and mfa.go: the queries of a login
--   Access/Session    internal/api/middleware.go: resolveCredential, requireAuth, requireAdmin
--   Access/Login      internal/api/router.go: handleLogin, handleLoginMFA
--   Store/Conn        internal/store/db.go: a connection, its statements and transactions; the rules
--                     of a transaction in Store/Conn/Transaction
--   Store/Tables      the tables of internal/store/migrate.go; Store/Rows has the statements
--   Store/Zones       internal/store/dns.go; its operations as single changes in
--                     Store/Zones/Changes; Store/Lookup has FindDNSZoneForDomain
--   Store/Users       internal/store/users.go, on the tables of Store/Accounts
--   Store/Factor      internal/store/mfa.go, on the same tables
--   Store/Sites       internal/store/store.go and site_domains.go
--   Store/Teams       internal/store/teams.go and invites.go
--   Api/Handler       handlers as steps that an early return ends
--   Api/Owner         internal/api/teams.go: canAccessOwner, canManageTeam, resolveOwner
--   Api/Records       internal/api/dns.go: validateDNSRecord
--   Api/Dns           internal/api/dns.go: the handlers; Api/Provision has autoProvisionDNS
--   Api/Teams         internal/api/teams.go: the handlers
--   Api/Admin         internal/api/admin.go: the handlers, with validUsername of account.go
--   Api/Account       internal/api/account.go: the setup, the profile, the second factor
--   Supervisor        internal/runner/supervisor.go: Start, spawn, wait, Stop, Rename, Delete
--   Quota             internal/quota/quota.go
--   Search            internal/api/usersearch.go: levenshtein, rankUserMatches
--   Prelude           lists, texts, association lists and the functions of strings that the parts share
--   Examples          concrete runs
--
-- State and steps. A map is an association list, a text the list of its bytes, and a time a number
-- of nanoseconds that is an argument. A mutex makes a method one step, so each locked method is
-- a function of the state it guards. The supervisor's goroutines are kept as the place where each
-- stands, and every locked part is a step that callers, goroutines and the system may interleave.
-- A token of the rate limit is counted in units of 10 ^ -9, in place of the source's float64, so
-- that no rounding occurs. Case folding is that of ASCII. Texts of the user search are lists of the
-- code points of valid UTF-8. sort.Slice is an insertion sort there, which may order entries that
-- compare equal otherwise. Status codes below 200 are not special to the recorder of the cache.
--
-- The database is a record of tables. A connection counts its statements, and a function says which
-- of them the engine refuses; a refused statement changes nothing, and a transaction that is
-- rolled back or whose commit is refused leaves the tables of its begin. A handler runs alone: two
-- requests do not interleave within a handler.
--
-- Fuel. find_zone has the length of the name and one more, since each round drops a byte at least;
-- chunk_txt has the length of the text, since each round drops 255. The theorems on both are
-- about the results with this fuel, and hold of every input.
--
-- Parameters. NameLib stands for dns.Fqdn of miekg/dns and net.ParseIP, CryptoLib for argon2, HMAC,
-- the encodings and the JWT library, with IsCodec and IsJwt for what they document. A query of the
-- store may fail, as a function of the kind of query says; numbers of the store are not negative.
-- The handler of a route and http.NotFound are arguments, and so are the subnet key of an address,
-- the decoded body of a request, and the random token, the time and the mailer of an invitation.
--
-- Not modelled: the handlers of sites, the tables and handlers of apps, the resets and
-- verifications by mail of internal/api/account.go, the texts of messages, the columns created_at,
-- the bound of a serial number, the commands and logs of processes, the builder, the proxy,
-- certificates, mail, logs and the panel's user interface.
pub mod Prelude
pub mod Domain
pub mod Site
pub mod Vhost
pub mod Dns
pub mod Search
pub mod Access
pub mod Quota
pub mod Store
pub mod Api
pub mod Supervisor
pub mod Examples
