-- ===== src/Mag.antt =====
-- src/mag: the memories of a user.
pub mod Gating
