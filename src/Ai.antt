-- ===== src/Ai.antt =====
-- ai/ai.service.ts: the calls of the models with their retries, and the cached embedding of a search.
pub mod Models
pub mod Prompts
pub mod Summary
pub mod Retry
pub mod Search
pub mod Concurrent
mod Tests
