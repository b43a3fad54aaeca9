-- ===== src/Sleep.antt =====
-- src/sleep/: the supervision of the model calls of a sleep run.
pub mod Supervision
pub mod Sending
