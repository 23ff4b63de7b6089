-- ===== src/Examples.antt =====
-- The theorems at concrete inputs: a store that is an association list, and numbers that are rounded
-- down.
mod Concrete
mod Breaker
mod Nodes
mod Pools
mod Scaling
mod Tripping
mod Provider
mod Leading
mod Picking
mod Jobs
mod Confirming
mod Groups
mod Settings
mod Operating
mod Serving
mod Waiting
