-- ===== src/Worker.antt =====
-- The worker process of worker/: the runner, the heartbeat, the scheduler and the recovery sweep.
pub mod Runner
pub mod Heartbeat
pub mod Sweeps
pub mod Loops
pub mod Execute
pub mod Main
