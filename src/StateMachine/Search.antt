-- ===== src/StateMachine/Search.antt =====
-- CanReach and ValidEvents of internal/domain/state_machine.go: the breadth-first search with its
-- queue, and what it decides. The visited map is the list of the states that it maps to true.
pub mod Defs
pub mod Work
pub mod Correct
pub mod Events
