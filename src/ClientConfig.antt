-- ===== src/ClientConfig.antt =====
-- pkg/clientconfig: the cache of configured entries and of the connections made from them.
pub mod Entry
pub mod Connections
pub mod Cache
pub mod Referrals
pub mod Notification
pub mod Startup
pub mod Parser
pub mod Configgen
