-- ===== src/Node/Durable/Votes.antt =====
-- Durability through the vote handlers, the election timeout and a step down.
use ground_hog.Prelude.{
  ◌+◌, ◌≡◌, ◌≢◌, List, Option, none, some, Bool, true, false, ltb, if◌then◌else◌,
}
use ground_hog.Prelude.Exec.{modify}
use ground_hog.Prelude.Steps.{Preorder, Steps, Steps-modify, step_rules}
use ground_hog.Bytes.{Bytes}
use ground_hog.Messages.{RequestVote, RequestVoteReply, Message}
use ground_hog.Storage.{Contract}
use ground_hog.Types.{NodeId, Term}
use ground_hog.Node.State.{RaftNode, Services, Action}
use ground_hog.Node.Plumbing.{send, broadcast}
use ground_hog.Node.Frame.{
  send-kept, cancel_heartbeat-kept, write_trace-kept, arm_election_timer-kept, broadcast-kept,
}
use ground_hog.Node.Quiet.{promise, quiet, of_kept_disk, become_leader-quiet}
use ground_hog.Node.Roles.{step_down, become_follower, become_candidate}
use ground_hog.Node.Handlers.{
  reply_vote, cast_if, decide_vote, on_request_vote, on_request_vote_reply, campaign,
  on_election_timeout,
}
use ground_hog.Node.Durable.{
  LogHeld, quiet-held, held_order, kept_disk-held, Settles, Lasts, Settles-flush,
  Settles-flush_then, Settles-if, Settles-bind, Lasts-if, Lasts-quiet, Lasts-Settles, Lasts-bind,
}

-- No vote is not a vote for node 0.
forgotten : (b : Bool) (v : Option NodeId) → v ≢ some 0 → (if b then none else v) ≢ some 0
forgotten true v h = λ e. cc
forgotten false v h = h

module _ {S R : Type 0} (env : Services S R) (IsSound : S → Type 0)
    (written durable : S → List Bytes) (contract : Contract env.store IsSound written durable) where
  abbrev held : Preorder (RaftNode S R)
  held = held_order env IsSound written durable contract

  step_down-LogHeld :
      (t : Term) (l : Option NodeId) (n : RaftNode S R)
      → LogHeld env IsSound written durable contract (promise n)
      → LogHeld env IsSound written durable contract (promise (step_down t l n))
  step_down-LogHeld t l n h = record {
    sound = h.sound;
    named = h.named;
    real = forgotten (ltb n.current_term t) n.voted_for h.real;
    contiguous = h.contiguous;
    state = h.state;
    replays = h.replays;
  }

  pub become_follower-held : (t : Term) (l : Option NodeId) → Steps held (become_follower t l)
  unfolding become_follower
  become_follower-held t l =
      search
        (step_rules, step_down-LogHeld, kept_disk-held, cancel_heartbeat-kept, write_trace-kept)
        depth 9

  abbrev IsSettling : {A : Type 0} → Action S R A → Type 0
  IsSettling m = Settles env IsSound written durable contract m

  abbrev IsLasting : {A : Type 0} → Action S R A → Type 0
  IsLasting m = Lasts env IsSound written durable contract m

  vote-LogHeld :
      (c : NodeId)
      → c ≢ 0
      → (n : RaftNode S R) → LogHeld env IsSound written durable contract (promise n)
      → LogHeld env IsSound written durable contract (promise (record n { voted_for = some c }))
  vote-LogHeld c real n h = record {
    sound = h.sound;
    named = h.named;
    real = λ e. real (cc);
    contiguous = h.contiguous;
    state = h.state;
    replays = h.replays;
  }

  pub cast_if-held : (granted : Bool) (c : NodeId) → c ≢ 0 → Steps held (cast_if env granted c)
  unfolding cast_if
  cast_if-held granted c real =
      search (step_rules, vote-LogHeld, real, kept_disk-held, arm_election_timer-kept) depth 9

  send-quiet : (to : NodeId) (msg : Message) → Steps quiet (send {S = S} {R = R} to msg)
  send-quiet to msg = of_kept_disk _ (send-kept to msg)

  pub reply_vote-settles : (frm : NodeId) (granted : Bool) → IsSettling (reply_vote env frm granted)
  unfolding reply_vote
  reply_vote-settles frm granted = search (Settles-flush_then, step_rules, send-quiet) depth 9

  pub decide_vote-settles :
      (frm : NodeId) (msg : RequestVote)
      → msg.candidate_id ≢ 0
      → IsSettling (decide_vote env frm msg)
  unfolding decide_vote
  decide_vote-settles frm msg real =
      search (Settles-bind, step_rules, cast_if-held, real, reply_vote-settles) depth 9

  pub on_request_vote-settles :
      (frm : NodeId) (msg : RequestVote)
      → msg.candidate_id ≢ 0
      → IsSettling (on_request_vote env frm msg)
  unfolding on_request_vote
  on_request_vote-settles frm msg real =
      search
        (
          Settles-bind, Settles-if, step_rules, become_follower-held, decide_vote-settles, real,
          reply_vote-settles,
        )
        depth 12

  on_vote-quiet :
      (f : RaftNode S R → RaftNode S R)
      → ((n : RaftNode S R) → promise n ≡ promise (f n))
      → Steps quiet (modify f)
  on_vote-quiet f same = Steps-modify f (λ n. record { same = same n })

  pub on_request_vote_reply-lasts :
      (frm : NodeId) (msg : RequestVoteReply) → IsLasting (on_request_vote_reply env frm msg)
  unfolding on_request_vote_reply
  on_request_vote_reply-lasts frm msg =
      search
        (
          Lasts-bind, Lasts-if, Lasts-quiet, Lasts-Settles, Settles-bind, Settles-flush, step_rules,
          become_follower-held, on_vote-quiet, become_leader-quiet,
        )
        depth 14

  broadcast-quiet : (msg : Message) → Steps quiet (broadcast {S = S} {R = R} msg)
  broadcast-quiet msg = of_kept_disk _ (broadcast-kept msg)

  self_vote-held : Steps held (modify (λ n. record n { voted_for = some n.node_id }))
  self_vote-held = Steps-modify _ (λ n h. vote-LogHeld n.node_id h.named n h)

  new_term-held : Steps held (modify (λ n. record n { current_term = n.current_term + 1 }))
  new_term-held = Steps-modify _ (λ n h. record {
    sound = h.sound;
    named = h.named;
    real = h.real;
    contiguous = h.contiguous;
    state = h.state;
    replays = h.replays;
  })

  become_candidate-held : Steps held (become_candidate {S = S} {R = R})
  unfolding become_candidate
  become_candidate-held =
      quiet-held env IsSound written durable contract _
        (search (step_rules, on_vote-quiet, of_kept_disk, write_trace-kept) depth 9)

  pub campaign-settles : IsSettling (campaign env)
  unfolding campaign
  campaign-settles =
      search
        (
          Settles-bind, Settles-flush_then, step_rules, kept_disk-held, arm_election_timer-kept,
          broadcast-quiet, become_leader-quiet,
        )
        depth 12

  pub on_election_timeout-settles : IsSettling (on_election_timeout env)
  unfolding on_election_timeout
  on_election_timeout-settles =
      search (Settles-bind, self_vote-held, new_term-held, become_candidate-held, campaign-settles)
        depth 9
