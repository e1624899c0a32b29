-- ===== src/Tests.antt =====
-- The theorems at concrete inputs.
mod MemTable
mod Refresher
mod Secrets
mod Parameters
mod Refresh
mod Acceleration
mod Dataset
mod Backoff
mod Constraints
mod Cache
mod RefreshTask
mod Changes
mod Runtime
mod HealthMonitor
mod ExecutionPlan
