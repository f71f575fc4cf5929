-- ===== src/Api.antt =====
-- teehr-api: the OGC API over the warehouse, its authentication and the token broker.
pub mod Startup
pub mod Identity
pub mod RateLimit
pub mod Database
pub mod Sql
pub mod Records
pub mod Links
pub mod Features
pub mod Serialization
pub mod FixedCollections
pub mod Queryables
pub mod Collections
pub mod Locations
pub mod Foundation
pub mod Timeseries
pub mod Middleware
pub mod OpenApi
pub mod ApiKeys
pub mod KeyRoutes
pub mod Sessions
pub mod Broker
pub mod Delegation
pub mod TokenRoutes
