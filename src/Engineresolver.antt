-- ===== src/Engineresolver.antt =====
-- pkg/engineresolver: the session resolver, which tries resolvers in the order of their scores.
pub mod State
pub mod Lookup
mod Tests
