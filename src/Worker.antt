-- ===== src/Worker.antt =====
-- src/claudestruct/server/worker.py.
pub mod Claim
pub mod Process
