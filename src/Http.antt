-- ===== src/Http.antt =====
-- bbt/infra/http: the connection pool of the client.
pub mod Pool
