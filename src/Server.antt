-- ===== src/Server.antt =====
-- The servers: src/server/auth.js, and the routes of src/server/secure-server.js.
pub mod Auth
pub mod Api
