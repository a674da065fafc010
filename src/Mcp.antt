-- ===== src/Mcp.antt =====
-- mcp.py: the gateway between an agent and the notebook.
pub mod Largest
pub mod Fitting
pub mod Lines
pub mod Sized
pub mod Requests
pub mod Adapter
pub mod Calls
pub mod Gate
pub mod Guarded
pub mod Reads
mod Tests
