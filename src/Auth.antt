-- ===== src/Auth.antt =====
-- Package auth (mind-palace/server/auth/auth.go): the token file of the clued server.
pub mod Token
pub mod Projects
pub mod Load
pub mod File
pub mod Keys
pub mod Bearer
pub mod Lookups
pub mod Minting
pub mod Names
pub mod Revocation
pub mod RateLimit
