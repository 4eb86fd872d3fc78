-- ===== src/Server.antt =====
-- internal/server: the HTTP endpoints of the operator.
pub mod Health
