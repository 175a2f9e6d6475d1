-- ===== src/Node/Candidacy.antt =====
-- An election timeout: the node stands in the next term and votes for itself.
use ground_hog.Prelude.{◌+◌, ◌≡◌, refl, sym, ◌∙◌, ap, List, some}
use ground_hog.Prelude.Outcome.{ok}
use ground_hog.Prelude.Exec.{modify, ◌>>=◌, ◌>>◌}
use ground_hog.Prelude.Steps.{
  Preorder, Steps, Steps-weaken, Steps-modify, run-rel, bind-ok_elim, step_rules,
}
use ground_hog.Bytes.{Bytes}
use ground_hog.Storage.{Contract}
use ground_hog.Node.State.{RaftNode, Services, Action}
use ground_hog.Node.Frame.{
  Core, kept, kept_disk, write_trace-kept, broadcast-kept, arm_election_timer-kept, persist-kept,
  sync-kept,
}
use ground_hog.Node.Quiet.{Promise, quiet, become_leader-quiet}
use ground_hog.Node.Roles.{become_candidate}
use ground_hog.Node.Handlers.{campaign, on_election_timeout}
use ground_hog.Node.Durable.{IsDurable}
use ground_hog.Node.Durable.Restart.{on_election_timeout-IsDurable}

module _ {S R : Type 0} where
  -- The node, its term and its vote.
  record SameBallot (n t : RaftNode S R) : Type 0 where
    pub same_id : t.node_id ≡ n.node_id
    pub same_term : t.current_term ≡ n.current_term
    pub same_vote : t.voted_for ≡ n.voted_for

  same_ballot : Preorder (RaftNode S R)
  same_ballot = record {
    rel = SameBallot;
    stays = λ n. record { same_id = refl; same_term = refl; same_vote = refl };
    chain = λ a b c h k. record {
      same_id = k.same_id ∙ h.same_id;
      same_term = k.same_term ∙ h.same_term;
      same_vote = k.same_vote ∙ h.same_vote;
    };
  }

  of_kept : {A : Type 0} (m : Action S R A) → Steps kept m → Steps same_ballot m
  unfolding same_ballot
  of_kept m = Steps-weaken kept same_ballot m λ s t h. record {
    same_id = sym (ap (λ (c : Core). c.node_id) h.same_core);
    same_term = sym (ap (λ (c : Core). c.current_term) h.same_core);
    same_vote = sym (ap (λ (c : Core). c.voted_for) h.same_core);
  }

  of_kept_disk : {A : Type 0} (m : Action S R A) → Steps kept_disk m → Steps same_ballot m
  of_kept_disk m k =
      of_kept m (Steps-weaken kept_disk kept m (λ s t h. record { same_core = h.same_core }) k)

  of_quiet : {A : Type 0} (m : Action S R A) → Steps quiet m → Steps same_ballot m
  unfolding same_ballot
  of_quiet m = Steps-weaken quiet same_ballot m λ s t h. record {
    same_id = sym (ap (λ (p : Promise S). p.node_id) h.same);
    same_term = sym (ap (λ (p : Promise S). p.current_term) h.same);
    same_vote = sym (ap (λ (p : Promise S). p.voted_for) h.same);
  }

  unballoted :
      (f : RaftNode S R → RaftNode S R)
      → ((n : RaftNode S R) → SameBallot n (f n))
      → Steps same_ballot (modify f)
  unfolding same_ballot
  unballoted f same = Steps-modify f same

  become_candidate-ballot : Steps same_ballot (become_candidate {S = S} {R = R})
  unfolding become_candidate same_ballot
  become_candidate-ballot = search (step_rules, of_kept_disk, write_trace-kept) depth 9

module _ {S R : Type 0} (env : Services S R) where
  campaign-ballot : Steps same_ballot (campaign env)
  unfolding campaign
  campaign-ballot =
      search
        (
          step_rules, of_kept, of_kept_disk, of_quiet, arm_election_timer-kept, persist-kept,
          sync-kept, become_leader-quiet, broadcast-kept,
        )
        depth 9

  -- After the timeout: the next term, and the node's own vote in it.
  pub record Stands (n t : RaftNode S R) : Type 0 where
    pub next_term : t.current_term ≡ n.current_term + 1
    pub own_vote : t.voted_for ≡ some n.node_id

  on_election_timeout-Stands :
      (n t : RaftNode S R) → on_election_timeout env n ≡ (ok tt, t) → Stands n t
  unfolding on_election_timeout modify ◌>>=◌ same_ballot
  on_election_timeout-Stands n t e =
      let raised_term : RaftNode S R = record n { current_term = n.current_term + 1 } in
      bind-ok_elim become_candidate
        (λ _. modify (λ n. record n { voted_for = some n.node_id }) >> campaign env) raised_term e
        λ _ c candidate rest.
          let stood : SameBallot raised_term c =
            run-rel same_ballot become_candidate become_candidate-ballot candidate in
          let voted : RaftNode S R = record c { voted_for = some c.node_id } in
          let ran : SameBallot voted t =
            run-rel same_ballot (campaign env) {s = voted} campaign-ballot rest in
          record {
            next_term = ran.same_term ∙ stood.same_term;
            own_vote = ran.same_vote ∙ ap some stood.same_id;
          }

  module _ (IsSound : S → Type 0) (written durable : S → List Bytes)
      (contract : Contract env.store IsSound written durable) where
    -- If a node is durable, its storage keeps its contract and an election timeout returns, then the
    -- node after it is durable, its term is the next one, and its vote in that term is for itself.
    pub on_election_timeout-StandsDurably :
        (n t : RaftNode S R)
        → IsDurable env IsSound written durable contract n
        → on_election_timeout env n ≡ (ok tt, t)
        → IsDurable env IsSound written durable contract t × Stands n t
    on_election_timeout-StandsDurably n t h e = (
      on_election_timeout-IsDurable env IsSound written durable contract n t h e,
      on_election_timeout-Stands n t e,
    )
