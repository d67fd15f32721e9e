-- ===== src/Tests.antt =====
-- Sample policies, states and calls for the runs and the examples of the child modules.
pub mod Samples
pub mod Verdicts
pub mod Hooks
pub mod Background
pub mod Values
pub mod Handlers
pub mod Tools
pub mod Sessions
pub mod Records
pub mod Advice
pub mod Deaths
pub mod Live
