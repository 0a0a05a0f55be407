-- ===== src/Tests.antt =====
-- Runs of the code at concrete inputs, and the instances of the theorems that have hypotheses.
mod Fixtures
mod Est
mod Auth
mod Handlers
mod KeyGen
mod Config
mod RateLimit
mod Server
mod Backend
