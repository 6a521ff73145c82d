-- ===== src/Metrics.antt =====
-- The counters of metrics.go: the bounded tables of names (Tables), the duration histogram
-- (Histogram), and the counters under a closed set of labels with the classification of
-- fetch_error_reason.go (Labels). The text of GET /metrics is left out but for the series of a
-- histogram.
pub mod Tables
pub mod Histogram
pub mod Labels
mod Tests
