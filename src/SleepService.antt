-- ===== src/SleepService.antt =====
-- src/sleep-service/: the broker between the sleep runs and the runtime provider, and the events
-- of a run.
pub mod Runtime
pub mod Broker
pub mod Events
pub mod Coordinator
