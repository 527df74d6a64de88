-- ===== src/Tests.antt =====
-- Samples, tests, and the theorems at concrete inputs.
mod Manager
mod Idle
mod Daemon
mod Modules
mod Sleep
mod Whole
mod Reentrant
mod Program
mod Loading
mod Log
