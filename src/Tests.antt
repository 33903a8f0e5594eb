-- ===== src/Tests.antt =====
-- Concrete runs: each module takes a component's theorems to inputs that its code can meet.
mod GatewayPool
mod GatewayDiscovery
mod World
mod SchedulerMode
mod SchedulerWorkloads
mod SchedulerNodes
mod SchedulerAgent
mod SchedulerReconcile
mod AutomationEngine
mod AutomationLeader
