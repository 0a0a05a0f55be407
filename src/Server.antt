-- ===== src/Server.antt =====
-- pkg/server: what stands before and beside the handlers.
pub mod RateLimit
pub mod Middleware
pub mod Status
