-- ===== src/Api.antt =====
-- internal/api: the handlers of zones and teams, on the store.
pub mod Handler
pub mod Owner
pub mod Records
pub mod Dns
pub mod Provision
pub mod Teams
pub mod Admin
pub mod Account
