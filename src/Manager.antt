-- ===== src/Manager.antt =====
-- `InstanceManager` of src/core/orchestration/src/instance_manager/instance_manager.rs: requests start
-- instances, messages go to them or wait in the backlog, executors report their results. `handle`
-- is one round of the loop of `run`; a result of `none` is a panic. The channels that the manager
-- makes are numbered in the order in which it makes them.
pub mod Start
pub mod Run
pub mod Requests
pub mod Keeps
pub mod Reach
pub mod Backlog
pub mod Defs
pub mod Finish
pub mod Launch
