-- ===== src/Transforms.antt =====
-- The transforms of shotover/src/transforms/ that stand between a source and a sink. The rest of the
-- chain, which `call_next_transform` runs, is a parameter with a state of its own.
pub mod Pending
pub mod Filter
pub mod Throttling
pub mod Sinks
pub mod Tee
pub mod ParallelMap
pub mod Chain
pub mod Coalesce
