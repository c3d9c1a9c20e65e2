-- ===== src/Video.antt =====
-- video/: the pipeline's values, its sources and sinks, and the capture pipeline.
pub mod Values
pub mod Pipeline
