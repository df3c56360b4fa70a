-- ===== src/Redis.antt =====
-- redis: the server as the program relies on it, `RedisService`, and the request throttle on top.
pub mod Server
pub mod Service
pub mod Config
pub mod Lock
pub mod Throttle
pub mod Storage
pub mod Demo
mod Tests
