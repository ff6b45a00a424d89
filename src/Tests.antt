-- ===== src/Tests.antt =====
-- Runs of the model at concrete inputs, and the theorems at inputs that meet their hypotheses.
mod Backend
mod CopyRouter
mod Memory
mod Nest
mod Placed
mod Proxy
mod Router
mod Schema
mod Statistics
mod Store
mod Topology
