-- ===== src/Examples.antt =====
-- Concrete engines, archives and disks, and the theorems at concrete inputs.
mod Codecs
mod Classes
mod Engines
mod Disks
mod Filters
mod Files
mod Slots
mod Queues
mod Saves
mod Runs
mod Loads
mod Infos
mod Holders
mod Managers
mod Presets
mod Lifetimes
mod Hidden
mod References
mod Nodes
mod Prepared
mod Loadings
