-- ===== src/Examples.antt =====
-- The example programs: Database for examples/database/database.go, Proxy for
-- examples/httpproxy/httpproxy.go.
pub mod Database
pub mod Proxy
