-- ===== src/Agent.antt =====
-- internal/agent: collecting workload statuses and resource samples, and reporting them.
pub mod Index
pub mod Exposition
pub mod Workload
pub mod Source
pub mod Collect
pub mod Reporter
pub mod Counts
pub mod Tick
pub mod Build
pub mod Cluster
