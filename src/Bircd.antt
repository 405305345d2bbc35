-- ===== src/Bircd.antt =====
-- The study server in C (bircd): arrays of bytes, one entry for each descriptor, and the loop over poll().
pub mod Memory
pub mod Output
pub mod Fd
pub mod Client
pub mod Loop
