-- ===== src/Tests.antt =====
-- Runs of the modelled code on concrete inputs, by the part that they exercise.
pub mod Cycles
pub mod States
pub mod Decisions
pub mod Ladders
pub mod Lines
pub mod Files
pub mod Plugins
pub mod Trees
pub mod Rounds
