-- ===== src/Node/Quiet.antt =====
-- What replication, the apply rule and the commit rule leave alone: the term, the vote, the log and
-- the storage.
use ground_hog.Prelude.{ℕ, zero, suc, ◌≡◌, refl, ◌∙◌, Option, none, some}
use ground_hog.Prelude.Exec.{modify}
use ground_hog.Prelude.Steps.{Preorder, Steps, Steps-pure, Steps-modify, Steps-weaken, step_rules}
use ground_hog.Log.{RaftLog}
use ground_hog.Types.{NodeId, Term, Index}
use ground_hog.Node.State.{RaftNode, Action}
use ground_hog.Node.Frame.{
  Core, kept_disk, write_trace-kept, send-kept, cancel_election_timer-kept,
  arm_heartbeat_timer-kept,
}
use ground_hog.Node.Roles.{
  become_leader, replicate_from, replicate_to, send_heartbeats, pay, apply_next, apply_round,
  apply_rounds, apply_committed,
}
use ground_hog.Node.Handlers.{try_commit, advance_from, advance_commit_index}

-- What a restart must find again, of the node that is named.
pub record Promise (S : Type 0) : Type 0 where
  pub node_id : NodeId
  pub current_term : Term
  pub voted_for : Option NodeId
  pub log : RaftLog
  pub storage : S

abbrev promise_of : {S : Type 0} → Core → S → Promise S
promise_of c s = record {
  node_id = c.node_id;
  current_term = c.current_term;
  voted_for = c.voted_for;
  log = c.log;
  storage = s;
}

module _ {S R : Type 0} where
  abbrev pub promise : RaftNode S R → Promise S
  promise n = record {
    node_id = n.node_id;
    current_term = n.current_term;
    voted_for = n.voted_for;
    log = n.log;
    storage = n.storage;
  }

  pub record Quiet (n n' : RaftNode S R) : Type 0 where
    pub same : promise n ≡ promise n'

  abbrev pub quiet : Preorder (RaftNode S R)
  quiet = record {
    rel = Quiet;
    stays = λ n. record { same = refl };
    chain = λ a b c h k. record { same = h.same ∙ k.same };
  }

  -- The fields that a method may change at will.
  unchanged :
      (f : RaftNode S R → RaftNode S R)
      → ((n : RaftNode S R) → promise n ≡ promise (f n))
      → Steps quiet (modify f)
  unchanged f same = Steps-modify f (λ n. record { same = same n })

  pub of_kept_disk : {A : Type 0} (m : Action S R A) → Steps kept_disk m → Steps quiet m
  of_kept_disk m =
      Steps-weaken kept_disk quiet m
        λ s t h. record { same = λ i. promise_of (h.same_core i) (h.same_disk i) }

  pub replicate_to-quiet : (peer : NodeId) → Steps quiet (replicate_to {S = S} {R = R} peer)
  unfolding replicate_to replicate_from
  replicate_to-quiet peer = search (step_rules, of_kept_disk, send-kept) depth 10

  pub send_heartbeats-quiet : Steps quiet (send_heartbeats {S = S} {R = R})
  unfolding send_heartbeats
  send_heartbeats-quiet =
      search (step_rules, replicate_to-quiet, of_kept_disk, arm_heartbeat_timer-kept) depth 7

  pub become_leader-quiet : Steps quiet (become_leader {S = S} {R = R})
  unfolding become_leader
  become_leader-quiet =
      search
        (
          step_rules, unchanged, of_kept_disk, cancel_election_timer-kept, write_trace-kept,
          send_heartbeats-quiet,
        )
        depth 8

  pub pay-quiet : (o : Option (NodeId × ℕ)) → Steps quiet (pay {S = S} {R = R} o)
  unfolding pay
  pay-quiet none = Steps-pure tt
  pay-quiet (some p) = of_kept_disk _ (send-kept _ _)

  pub apply_next-quiet : Steps quiet (apply_next {S = S} {R = R})
  unfolding apply_next
  apply_next-quiet =
      search (step_rules, unchanged, of_kept_disk, write_trace-kept, pay-quiet) depth 12

  pub apply_round-quiet : (m : Action S R (Unit {0})) → Steps quiet m → Steps quiet (apply_round m)
  unfolding apply_round
  apply_round-quiet m k = search (step_rules, apply_next-quiet)

  pub apply_rounds-quiet : (k : ℕ) → Steps quiet (apply_rounds {S = S} {R = R} k)
  unfolding apply_rounds
  apply_rounds-quiet zero = Steps-pure tt
  apply_rounds-quiet (suc k) = apply_round-quiet _ (apply_rounds-quiet k)

  pub apply_committed-quiet : Steps quiet (apply_committed {S = S} {R = R})
  unfolding apply_committed
  apply_committed-quiet = search (step_rules, apply_rounds-quiet)

  pub try_commit-quiet :
      (i : Index) (m : Action S R (Unit {0})) → Steps quiet m → Steps quiet (try_commit i m)
  unfolding try_commit
  try_commit-quiet i m k = search (step_rules, unchanged, apply_committed-quiet) depth 9

  pub advance_from-quiet :
      (base : Index) (k : ℕ) → Steps quiet (advance_from {S = S} {R = R} base k)
  unfolding advance_from
  advance_from-quiet base zero = Steps-pure tt
  advance_from-quiet base (suc k) = try_commit-quiet _ _ (advance_from-quiet base k)

  pub advance_commit_index-quiet : Steps quiet (advance_commit_index {S = S} {R = R})
  unfolding advance_commit_index
  advance_commit_index-quiet = search (step_rules, advance_from-quiet)
