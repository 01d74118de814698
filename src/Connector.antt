-- ===== src/Connector.antt =====
-- connector/: the sockets that a service keeps open to its routers.
mod Tests
pub mod Farm
pub mod Plugins
pub mod Config
pub mod Urls
pub mod Target
pub mod Client
pub mod Socket
pub mod Events
pub mod Ending
pub mod Window
pub mod Steps
