-- ===== src/Invariants/Completeness.antt =====
-- groundhog/invariants/safety.py, `class LeaderCompleteness`.
pub mod Silent
use ground_hog.Prelude.{
  ◌≡◌, ◌≢◌, refl, ◌∙◌, ap, List, [], ◌∷◌, Option, none, some, Bool, true, false, ◌&&◌, ◌==◌, not,
  leb, Memᴰ, if◌then◌else◌, arith, Bool-cases, ◌⊎◌, inl, inr, range,
}
use ground_hog.Prelude.Dict.{Dict, nat_eq, lookup, contains, insert, lookup-insert, lookup-Mem}
use ground_hog.Prelude.Outcome.{ok}
use ground_hog.Prelude.Exec.{Exec, pure, gets, modify, lift, when, for_each, ◌>>=◌, ◌>>◌}
use ground_hog.Prelude.Steps.{
  Preorder, Steps, run-rel, step_rules, bind-ok_elim, bind-rel, lift-ok_elim,
}
use ground_hog.Prelude.Sort.{sorted_items, sorted_items-Mem}
use ground_hog.Prelude.Watch.{
  insert-Known, first_of, silent_elim, Steps-first_of, silent-All, Visit, silent-visited,
}
use ground_hog.Log.{LogEntry, has_entry, entry_at}
use ground_hog.Node.State.{RaftNode}
use ground_hog.Node.Roles.{is_leader}
use ground_hog.Types.{NodeId, Term, Index}
use ground_hog.Invariants.Equality.{entry_eq, entry_eq_iff}
use ground_hog.Invariants.View.{
  ClusterView, Problem, leader_lacks, sorted_nodes, leaders, leaders-Mem, IsKeyed, leaders-one,
}

pub record LeaderCompleteness : Type 0 where
  pub committed : Dict Index LogEntry
  pub checked_terms : Dict Term NodeId

-- `self.checked_terms.get(term) == node_id`
abbrev pub is_id : Option NodeId → NodeId → Bool
is_id none i = false
is_id (some j) i = j == i

pub keep_entry : Index → LogEntry → Exec LeaderCompleteness (Unit {0})
keep_entry index entry = modify (λ c. record c { committed = insert index entry c.committed })

module _ {S R : Type 0} where
  -- The body of the first loop.
  pub note_committed : RaftNode S R → Index → Exec LeaderCompleteness (Unit {0})
  unfolding keep_entry
  note_committed node index = do
    known ← gets (λ c. contains index c.committed)
    when (not known && has_entry node.log index)
        (lift (entry_at node.log index) >>= keep_entry index)

  pub note_node : RaftNode S R → Exec LeaderCompleteness (Unit {0})
  unfolding note_committed
  note_node node = for_each (note_committed node) (range 1 node.commit_index)

  -- The message of the check, where the leader's log does not have the entry.
  pub lacks : RaftNode S R → Index → LogEntry → Exec LeaderCompleteness (Option Problem)
  lacks node index entry =
      if has_entry node.log index && leb 1 index
      then (lift (entry_at node.log index) >>= λ found.
          pure (some (leader_lacks node.node_id node.current_term entry (some found))))
      else pure (some (leader_lacks node.node_id node.current_term entry none))

  pub check_found :
      RaftNode S R → Index → LogEntry → LogEntry → Exec LeaderCompleteness (Option Problem)
  unfolding lacks
  check_found node index entry found =
      if entry_eq found entry then pure none else lacks node index entry

  pub check_entry : RaftNode S R → Index × LogEntry → Exec LeaderCompleteness (Option Problem)
  unfolding lacks check_found
  check_entry node (index, entry) =
      if has_entry node.log index
      then lift (entry_at node.log index) >>= check_found node index entry
      else lacks node index entry

  -- The second loop, behind the test whether the leader was checked in its term.
  pub check_unless : RaftNode S R → Bool → Exec LeaderCompleteness (Option Problem)
  unfolding check_entry
  check_unless node true = pure none
  check_unless node false = do
    modify (λ c. record c { checked_terms = insert node.current_term node.node_id c.checked_terms })
    committed ← gets (λ c. c.committed)
    first_of (check_entry node) (sorted_items committed)

  pub check_leader : RaftNode S R → Exec LeaderCompleteness (Option Problem)
  unfolding check_unless
  check_leader node = do
    checked ← gets (λ c. is_id (lookup node.current_term c.checked_terms) node.node_id)
    check_unless node checked

  -- `LeaderCompleteness.observe`
  unfoldable pub check_completeness : ClusterView S R → Exec LeaderCompleteness (Option Problem)
  unfolding note_node check_leader
  check_completeness view = do
    for_each note_node (sorted_nodes view)
    first_of check_leader (leaders view)
