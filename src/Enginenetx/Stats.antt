-- ===== src/Enginenetx/Stats.antt =====
-- pkg/enginenetx/statsmanager.go: statistics about the dialing tactics that work and those that do
-- not, kept in memory and in the key-value store.
pub mod Data
pub mod Sorting
pub mod Prune
pub mod Events
pub mod Manager
