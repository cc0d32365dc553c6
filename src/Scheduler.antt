-- ===== src/Scheduler.antt =====
-- scheduler/scheduler.cpp and scheduler.hpp: the Mesos scheduler, a component in each child.
pub mod Names
pub mod Policy
pub mod Memory
pub mod Command
pub mod Task
pub mod State
pub mod Services
pub mod Offers
pub mod Status
pub mod Probe
pub mod Proxy
pub mod Page
pub mod Callbacks
pub mod Tracking
pub mod Keeping
pub mod Progress
pub mod Runs
pub mod Http
