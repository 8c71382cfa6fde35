-- ===== src/News.antt =====
-- The news: src/infrastructure/repositories/news.py and the jobs that work on it.
pub mod Items
pub mod Collector
pub mod Seen
pub mod Pipeline
pub mod Ingestion
pub mod Preferences
pub mod Rules
pub mod Learning
mod Tests
