-- ===== src/Examples.antt =====
-- Runs of the model on concrete inputs, and the theorems at such inputs.
pub mod Sessions
pub mod Protocol
pub mod Pings
pub mod Notices
pub mod Rounds
pub mod Opening
pub mod Members
pub mod Powers
pub mod Bots
pub mod Study
pub mod Output
pub mod Shutdown
pub mod Lines
