-- ===== src/Metrics.antt =====
-- src/metrics: what a run measured and its statistics.
pub mod Extremes
pub mod BenchmarkResult
pub mod LatencyRecorder
pub mod MetricsCollector
