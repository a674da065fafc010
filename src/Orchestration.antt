-- ===== src/Orchestration.antt =====
-- orchestration.py: the capture of a command's output, and `LifecycleOrchestrator`.
pub mod Capture
pub mod Captured
pub mod Lifecycle
pub mod Ended
pub mod Ordered
mod Tests
