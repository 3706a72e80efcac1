-- ===== src/Trajectory.antt =====
-- Backend/src/trajectory/trajectory.service.ts: the hash chain of the events of a trace.
pub mod Service
pub mod Chain
pub mod Traces
pub mod Appends
pub mod History
pub mod Tests
