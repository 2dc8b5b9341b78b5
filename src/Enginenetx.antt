-- ===== src/Enginenetx.antt =====
-- pkg/enginenetx: the network stack that the engine uses to reach its backend.
pub mod HappyEyeballs
pub mod Tactic
pub mod Filter
pub mod Mix
pub mod Stats
pub mod HttpsDialer
pub mod Policy
pub mod Samples
