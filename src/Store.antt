-- ===== src/Store.antt =====
-- internal/store: the connection, the tables and the operations on them.
pub mod Conn
pub mod Tables
pub mod Rows
pub mod Zones
pub mod Lookup
pub mod Teams
pub mod Sites
pub mod Accounts
pub mod Users
pub mod Factor
