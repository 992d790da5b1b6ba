-- ===== src/Tests.antt =====
-- Runs of the definitions at concrete data, and the theorems applied to them.
pub mod Samples
pub mod Rewards
mod MaskRuns
mod Histories
mod Strategies
mod Subtasks
mod Renders
mod Agents
mod Splits
mod Routers
mod Evaluations
mod Trainings
mod Sweeps
pub mod Pools
mod Cleanings
mod Gradings
mod Collections
mod Containers
mod SweepRuns
mod Scans
mod Branches
