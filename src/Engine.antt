-- ===== src/Engine.antt =====
-- MatchingEngine/include/MatchingEngine.h, by concern.
pub mod State
pub mod Emit
pub mod Match
pub mod NewOrder
pub mod Change
pub mod Recovery
pub mod Handlers
