-- ===== src/Trends.antt =====
-- trends: the data of the program, the store behind it, and the collecting pipeline.
pub mod Data
pub mod World
pub mod Repository
pub mod Schema
pub mod Pipeline
pub mod Events
pub mod Query
pub mod Cache
pub mod Queue
pub mod Store
pub mod Service
pub mod Scrapers
pub mod Worker
