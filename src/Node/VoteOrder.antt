-- ===== src/Node/VoteOrder.antt =====
-- The order in which a node's term and vote may change, and the methods that keep them.
use ground_hog.Prelude.{◌≤◌, ◌≡◌, sym, ap, ◌∙◌, Option, some, arith}
use ground_hog.Prelude.Exec.{modify}
use ground_hog.Prelude.Steps.{Preorder, Steps, Steps-modify, Steps-weaken, step_rules}
use ground_hog.Prelude.Outcome.{Outcome}
use ground_hog.Log.{RaftLog}
use ground_hog.Types.{NodeId, Term}
use ground_hog.Node.State.{RaftNode, Action}
use ground_hog.Node.Frame.{Core, kept, kept_disk, write_trace-kept, cancel_heartbeat-kept}
use ground_hog.Node.Quiet.{Promise, quiet}
use ground_hog.Node.Roles.{step_down, become_follower}
use ground_hog.Node.Handlers.{on_log}

module _ {S R : Type 0} where
  pub record VoteKept (n n' : RaftNode S R) : Type 0 where
    pub term_le : n.current_term ≤ n'.current_term
    pub vote_kept :
        (v : NodeId)
        → n.current_term ≡ n'.current_term
        → n.voted_for ≡ some v
        → n'.voted_for ≡ some v

  pub VoteKept-trans : (a b c : RaftNode S R) → VoteKept a b → VoteKept b c → VoteKept a c
  VoteKept-trans a b c h k = record {
    term_le = omega arith;
    vote_kept = λ v e p.
        k.vote_kept v (omega (arith, h.term_le, k.term_le))
          (h.vote_kept v (omega (arith, h.term_le, k.term_le)) p);
  }

  abbrev pub vote_order : Preorder (RaftNode S R)
  vote_order = record {
    rel = VoteKept;
    stays = λ n. record { term_le = omega arith; vote_kept = λ v e p. p };
    chain = VoteKept-trans;
  }

  -- Other fields may change at will.
  pub unchanged :
      (f : RaftNode S R → RaftNode S R)
      → ((n : RaftNode S R) → (f n).current_term ≡ n.current_term)
      → ((n : RaftNode S R) → (f n).voted_for ≡ n.voted_for)
      → Steps vote_order (modify f)
  unchanged f same_term same_vote =
      Steps-modify f
        λ n. record { term_le = omega (arith, same_term n); vote_kept = λ v e p. same_vote n ∙ p }

  pub of_kept : {A : Type 0} (m : Action S R A) → Steps kept m → Steps vote_order m
  of_kept m = Steps-weaken kept vote_order m λ s t h. record {
    term_le = omega (arith, ap (λ (c : Core). c.current_term) h.same_core);
    vote_kept = λ v e p. sym (ap (λ (c : Core). c.voted_for) h.same_core) ∙ p;
  }

  pub of_kept_disk : {A : Type 0} (m : Action S R A) → Steps kept_disk m → Steps vote_order m
  of_kept_disk m k =
      of_kept m (Steps-weaken kept_disk kept m (λ s t h. record { same_core = h.same_core }) k)

  pub step_down-votes :
      (term : Term) (l : Option NodeId)
      → Steps vote_order (modify (step_down {S = S} {R = R} term l))
  step_down-votes term l =
      Steps-modify _ λ n. record { term_le = ground arith; vote_kept = λ v e p. ground arith }

  pub become_follower-votes :
      (term : Term) (l : Option NodeId) → Steps vote_order (become_follower {S = S} {R = R} term l)
  unfolding become_follower
  become_follower-votes term l =
      search (step_rules, step_down-votes, of_kept_disk, cancel_heartbeat-kept, write_trace-kept)
        depth 10

  pub of_quiet : {A : Type 0} (m : Action S R A) → Steps quiet m → Steps vote_order m
  of_quiet m = Steps-weaken quiet vote_order m λ s t h. record {
    term_le = omega (arith, ap (λ (p : Promise S). p.current_term) h.same);
    vote_kept = λ v e p. sym (ap (λ (p : Promise S). p.voted_for) h.same) ∙ p;
  }

  pub on_log-votes :
      {A : Type 0} (m : RaftLog → Outcome A × RaftLog) → Steps vote_order (on_log {S = S} {R = R} m)
  unfolding on_log
  on_log-votes m = record { at = λ n. record { term_le = omega arith; vote_kept = λ v e p. p } }
