-- ===== src/Scrape.antt =====
-- internal/scrape: reading a Prometheus exposition.
pub mod Series
pub mod BaseNames
pub mod Labels
pub mod Resolve
pub mod Rate
pub mod Decode
