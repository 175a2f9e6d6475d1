-- ===== src/Node/Votes.antt =====
-- What a node answers to a candidate, and what a step down sets.
use ground_hog.Prelude.{
  ◌≡◌, refl, ◌∙◌, ap, sym, List, [], ◌∷◌, ◌++◌, Option, none, some, Bool, true, false, ltb, ◌&&◌,
  arith, Bool-cases, inl, inr, if◌then◌else◌,
}
use mathlib.Core.Path.{subst}
use ground_hog.Prelude.Outcome.{ok}
use ground_hog.Prelude.Exec.{gets, modify, when, pure, ◌>>=◌}
use ground_hog.Prelude.Steps.{Steps, Steps-weaken, run-rel, gets-ok, bind-ok_elim, step_rules}
use ground_hog.Log.{RaftLog, last_index, last_term}
use ground_hog.Messages.{RequestVote, request_vote_reply}
use ground_hog.Types.{NodeId, Term}
use ground_hog.Node.State.{RaftNode, Services, Action, Effect, deliver, trace, sent, stepped_down}
use ground_hog.Node.Plumbing.{
  perform, write_trace, send, cancel_heartbeat, arm_election_timer, persist, sync,
}
use ground_hog.Node.Frame.{
  Core, core, kept, kept_disk, cancel_heartbeat-kept, write_trace-kept, arm_election_timer-kept,
  persist-kept, sync-kept,
}
use ground_hog.Node.Roles.{is_follower, step_down, become_follower}
use ground_hog.Node.Handlers.{
  up_to_date, may_vote_for, grants, reply_vote, cast_if, decide_vote, on_request_vote,
}

and_right : (a b : Bool) → (a && b) ≡ true → b ≡ true
and_right true b h = h
and_right false b h = cc

module _ {S R : Type 0} where
  kept_disk-kept : {A : Type 0} (m : Action S R A) → Steps kept_disk m → Steps kept m
  kept_disk-kept m = Steps-weaken kept_disk kept m (λ n t h. record { same_core = h.same_core })

  -- `become_follower` sets the fields that it names, and of the node's own state no other.
  pub become_follower-core :
      (term : Term) (l : Option NodeId) (n u : RaftNode S R)
      → become_follower term l n ≡ (ok tt, u)
      → core (step_down term l n) ≡ core u
  unfolding become_follower modify
  become_follower-core term l n u e =
      bind-ok_elim (modify (step_down term l)) _ n (gets-ok (λ n. n.role) _ n e) λ _ k stepped rest.
        ap (λ p. core p.1) stepped
        ∙ (run-rel kept
            (cancel_heartbeat >>= λ _.
              (gets (λ n. n.current_term) >>= λ now.
              (if is_follower n.role then pure tt else write_trace (stepped_down n.role now))))
            (search (step_rules, kept_disk-kept, cancel_heartbeat-kept, write_trace-kept) depth 9)
            rest).same_core

module _ {S R : Type 0} (env : Services S R) where
  -- The last call of the handler is the reply, which carries the node's term.
  pub record Answered (frm : NodeId) (granted : Bool) (c : Core) (t : RaftNode S R) : Type 0 where
    pub same_core : c ≡ core t
    pub before : List Effect
    pub last_effect :
        t.effects
        ≡ before
          ++ deliver frm
              (request_vote_reply (record { term = t.current_term; vote_granted = granted }))
            ∷ []

  answer-Answered :
      (frm : NodeId) (granted : Bool) (n t : RaftNode S R)
      → (gets (λ n. n) >>= λ n.
            send frm
              (request_vote_reply (record { term = n.current_term; vote_granted = granted })))
          n
        ≡ (ok tt, t)
      → Answered frm granted (core n) t
  unfolding send write_trace perform modify gets ◌>>=◌
  answer-Answered frm granted n t e =
      let reply = request_vote_reply (record { term = n.current_term; vote_granted = granted }) in
      let final : record n {
        effects = (n.effects ++ trace (sent frm reply) ∷ []) ++ deliver frm reply ∷ [];
      }
          ≡ t =
        ap (λ p. p.1) e in
      subst (Answered frm granted (core n)) final (record {
        same_core = refl;
        before = n.effects ++ trace (sent frm reply) ∷ [];
        last_effect = refl;
      })

  reply_vote-Answered :
      (frm : NodeId) (granted : Bool) (n t : RaftNode S R)
      → reply_vote env frm granted n ≡ (ok tt, t)
      → Answered frm granted (core n) t
  unfolding reply_vote
  reply_vote-Answered frm granted n t e = bind-ok_elim (persist env) _ n e λ _ u saved e1.
      bind-ok_elim (sync env) _ u e1 λ _ v flushed e2.
        subst (λ c. Answered frm granted c t)
          (sym (
            (run-rel kept (persist env) (persist-kept env) saved).same_core
            ∙ (run-rel kept (sync env) (sync-kept env) flushed).same_core))
          (answer-Answered frm granted v t e2)

  cast_if-core :
      (c : NodeId) (n t : RaftNode S R)
      → cast_if env true c n ≡ (ok tt, t)
      → core (record n { voted_for = some c }) ≡ core t
  unfolding cast_if when modify ◌>>=◌
  cast_if-core c n t e =
      (run-rel kept (arm_election_timer env) {s = record n { voted_for = some c }}
        (kept_disk-kept _ (arm_election_timer-kept env)) e).same_core

  -- The answer to a candidate: a vote is granted only to the candidate that the vote is cast for, in
  -- the candidate's term, and if its log is at least as new as the node's.
  pub record Reply (frm : NodeId) (msg : RequestVote) (log : RaftLog) (t : RaftNode S R)
      : Type 0 where
    pub granted : Bool
    pub before : List Effect
    pub last_effect :
        t.effects
        ≡ before
          ++ deliver frm
              (request_vote_reply (record { term = t.current_term; vote_granted = granted }))
            ∷ []
    pub voted : granted ≡ true → t.voted_for ≡ some msg.candidate_id
    pub same_term : granted ≡ true → t.current_term ≡ msg.term
    pub new_enough :
        granted ≡ true
        → up_to_date msg.last_log_term msg.last_log_index (last_term log) (last_index log) ≡ true

  decide_vote-Reply :
      (frm : NodeId) (msg : RequestVote) (n t : RaftNode S R)
      → n.current_term ≡ msg.term
      → decide_vote env frm msg n ≡ (ok tt, t)
      → Reply frm msg n.log t
  unfolding decide_vote
  decide_vote-Reply frm msg n t own e = go (grants n msg) refl (gets-ok (λ n. n) _ n e)
    where
      go :
          (b : Bool)
          → grants n msg ≡ b
          → (cast_if env b msg.candidate_id >>= λ _. reply_vote env frm b) n ≡ (ok tt, t)
          → Reply frm msg n.log t
      go true granting e = bind-ok_elim (cast_if env true msg.candidate_id) _ n e λ _ u cast e'.
          let answer = reply_vote-Answered frm true u t e' in
          let same : core (record n { voted_for = some msg.candidate_id }) ≡ core t =
            cast_if-core msg.candidate_id n u cast ∙ answer.same_core in
          record {
            granted = true;
            before = answer.before;
            last_effect = answer.last_effect;
            voted = λ _. sym (ap (λ c. c.voted_for) same);
            same_term = λ _. sym (ap (λ c. c.current_term) same) ∙ own;
            new_enough = λ _. and_right (may_vote_for n.voted_for msg.candidate_id) _ granting;
          }
      go false denied e = bind-ok_elim (cast_if env false msg.candidate_id) _ n e λ _ u cast e'.
          let answer = reply_vote-Answered frm false u t e' in
          record {
            granted = false;
            before = answer.before;
            last_effect = answer.last_effect;
            voted = λ p. cc;
            same_term = λ p. cc;
            new_enough = λ p. cc;
          }

  refused-Reply :
      (frm : NodeId) (msg : RequestVote) (n t : RaftNode S R)
      → reply_vote env frm false n ≡ (ok tt, t)
      → Reply frm msg n.log t
  refused-Reply frm msg n t e =
      let answer = reply_vote-Answered frm false n t e in
      record {
        granted = false;
        before = answer.before;
        last_effect = answer.last_effect;
        voted = λ p. cc;
        same_term = λ p. cc;
        new_enough = λ p. cc;
      }

  -- The node after it has looked at the term of the message.
  caught_up :
      (msg : RequestVote) (n u : RaftNode S R)
      → when (ltb n.current_term msg.term) (become_follower msg.term none) n ≡ (ok tt, u)
      → (u.log ≡ n.log) × (ltb msg.term u.current_term ≡ false → u.current_term ≡ msg.term)
  unfolding when pure
  caught_up msg n u e = elim (Bool-cases (ltb n.current_term msg.term)) [
    | inl newer ↦
        let now = become_follower-core msg.term none n u (rw newer at e) in
        (
          sym (ap (λ c. c.log) now),
          λ current. ground (arith, ap (λ c. c.current_term) now, newer, current),
        )
    | inr old ↦
        let still : n ≡ u = ap (λ p. p.1) (rw old at e) in
        (
          sym (ap (λ n. n.log) still),
          λ current. ground (arith, ap (λ n. n.current_term) still, old, current),
        )
  ]

  -- Where the handler of a vote request returns, its last call sends a reply that carries the
  -- node's term. If the vote is granted, the node's vote is for the candidate, the node's term is
  -- the request's, and the candidate's last entry is at least as new as the last entry of the log
  -- that the node had.
  pub on_request_vote-Reply :
      (frm : NodeId) (msg : RequestVote) (n t : RaftNode S R)
      → on_request_vote env frm msg n ≡ (ok tt, t)
      → Reply frm msg n.log t
  unfolding on_request_vote
  on_request_vote-Reply frm msg n t e =
      bind-ok_elim (when (ltb n.current_term msg.term) (become_follower msg.term none)) _ n
        (gets-ok (λ n. n) _ n e)
        λ _ u ran e'. answered u (caught_up msg n u ran) (gets-ok (λ n. n) _ u e')
    where
      answered :
          (u : RaftNode S R)
          → (u.log ≡ n.log) × (ltb msg.term u.current_term ≡ false → u.current_term ≡ msg.term)
          → (if ltb msg.term u.current_term
                then reply_vote env frm false
                else decide_vote env frm msg)
              u
            ≡ (ok tt, t)
          → Reply frm msg n.log t
      answered u (same_log, now) e = elim (Bool-cases (ltb msg.term u.current_term)) [
        | inl stale ↦ rw (← same_log) (refused-Reply frm msg u t (rw stale at e))
        | inr current ↦
            rw (← same_log) (decide_vote-Reply frm msg u t (now current) (rw current at e))
      ]
