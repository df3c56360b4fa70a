-- ===== src/Common.antt =====
-- common/utils: chunks of an array, the cleaning of scraped text, the Korean day.
pub mod Chunk
pub mod Text
pub mod Time
pub mod Dates
mod Tests
