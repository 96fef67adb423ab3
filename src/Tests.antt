-- ===== src/Tests.antt =====
-- The theorems at concrete inputs, and runs of the code.
mod Data
mod Store
mod Handlers
mod Agents
mod Runs
mod Flows
mod Sources
mod Cluster
mod Folders
