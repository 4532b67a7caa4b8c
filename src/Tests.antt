-- ===== src/Tests.antt =====
-- Tests on concrete inputs, and the instances of the theorems with hypotheses.
mod Clocks
mod Stores
mod Buffers
mod Quorums
mod Nodes
mod Replicas
mod Races
mod Checks
mod Tools
mod Starts
mod Clusters
mod CausalClusters
mod Behind
mod Commits
mod Benchmarks
mod Processes
mod Causal
