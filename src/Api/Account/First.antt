-- ===== src/Api/Account/First.antt =====
-- The setup of an instance makes its first account only.
use lamund.Store.Conn.{Conn}
use lamund.Store.Accounts.{Accounts}
