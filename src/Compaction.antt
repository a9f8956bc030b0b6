-- ===== src/Compaction.antt =====
-- agent/compaction.py
pub mod ToolOrder
pub mod Bundles
pub mod Fit
pub mod Framing
pub mod Summary
pub mod Transcript
pub mod Compact
pub mod Reads
pub mod Prune
mod Tests
