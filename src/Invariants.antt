-- ===== src/Invariants.antt =====
-- groundhog/invariants: the checkers that watch a run, one child for each class, the registry that
-- runs them, and the comparison of the stores.
pub mod Equality
pub mod View
pub mod Election
pub mod Machine
pub mod Matching
pub mod Progress
pub mod AppendOnly
pub mod Completeness
pub mod Registry
pub mod Observed
pub mod Watching
pub mod Divergence
