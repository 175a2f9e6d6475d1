-- ===== src/Node.antt =====
-- groundhog/raft/node.py: a Raft node. The children model its state, its plumbing, its role
-- transitions, its message handlers and its lifecycle; the others hold what is proved of them.
pub mod State
pub mod Plumbing
pub mod Roles
pub mod Handlers
pub mod Lifecycle
pub mod Frame
pub mod Quiet
pub mod VoteOrder
pub mod Order
pub mod Commit
pub mod Applied
pub mod Votes
pub mod Durable
pub mod Candidacy
