-- ===== src/Xpublish.antt =====
-- xpublish-api: the service of the icechunk repos and of the vector-tile archives.
pub mod Identity
pub mod Authz
pub mod Rules
pub mod Credentials
pub mod Storage
pub mod Provider
pub mod App
pub mod Pmtiles
pub mod Routes
pub mod Threads
pub mod Login
pub mod Startup
