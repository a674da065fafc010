-- ===== src/Network.antt =====
-- network.py: which destinations are public, the host's firewall rules for a runtime network, and the
-- applier that sets them up, checks them and removes them.
pub mod Rules
pub mod Applier
pub mod Checked
pub mod Removal
pub mod Destinations
pub mod Approved
pub mod Removed
pub mod Undone
mod Tests
