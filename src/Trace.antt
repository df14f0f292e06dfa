-- ===== src/Trace.antt =====
-- cmd/trace/identity_join.go: who held a binding at an instant, from the stored events. The two
-- functions of the source fold batches of events of one second in the same way, so the fold is
-- written once, over what it reads of an event.
pub mod Fold
pub mod Join
pub mod Filter
pub mod Query
pub mod Accepted
pub mod Who
mod Tests
