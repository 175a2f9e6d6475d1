-- ===== src/Node/Order.antt =====
-- What every run of a method, returned or raised, does to the term and the vote: the term never
-- falls, and a vote that was cast in the current term is not changed within that term.
use ground_hog.Prelude.{◌+◌, ◌≡◌, refl, List, [], ◌∷◌, ◌++◌, some, Bool, true, false, arith}
use ground_hog.Prelude.Exec.{gets, modify, when, ◌>>=◌}
use ground_hog.Prelude.Steps.{Steps, Steps-pure, bind-rel, step_rules}
use ground_hog.Log.{LogEntry}
use ground_hog.Messages.{
  Message, request_vote, request_vote_reply, append_entries, append_entries_reply, client_request,
  client_reply, RequestVote, RequestVoteReply, AppendEntries, AppendEntriesReply, ClientRequest,
}
use ground_hog.Types.{NodeId, Term, Index}
use ground_hog.Node.State.{RaftNode, Services, Action}
use ground_hog.Node.Frame.{
  send-kept, broadcast-kept, arm_election_timer-kept, persist-kept, persist_entries-kept,
  persist_truncation-kept, sync-kept,
}
use ground_hog.Node.Quiet.{
  become_leader-quiet, replicate_to-quiet, apply_committed-quiet, advance_commit_index-quiet,
}
use ground_hog.Node.Roles.{become_candidate}
use ground_hog.Node.Plumbing.{perform, write_trace, arm_election_timer, persist, sync}
use ground_hog.Node.Lifecycle.{dispatch}
use ground_hog.Node.Handlers.{
  may_vote_for, grants, consistent, reply_vote, cast_if, decide_vote, on_request_vote,
  on_request_vote_reply, take_entry, already_held, entry_round, take_entries, refuse_entries,
  accept_entries, confirm_entries, follow_leader, on_append_entries, on_append_entries_reply,
  campaign, on_election_timeout, take_request, offer_entry, on_client_request,
}
use ground_hog.Node.VoteOrder.{
  VoteKept, vote_order, unchanged, of_kept, of_kept_disk, become_follower-votes, of_quiet,
  on_log-votes,
}

module _ {S R : Type 0} (env : Services S R) where
  persist-votes : Steps vote_order (persist env)
  persist-votes = of_kept _ (persist-kept env)

  sync-votes : Steps vote_order (sync env)
  sync-votes = of_kept _ (sync-kept env)

  arm_election_timer-votes : Steps vote_order (arm_election_timer env)
  arm_election_timer-votes = of_kept_disk _ (arm_election_timer-kept env)

  reply_vote-votes : (frm : NodeId) (g : Bool) → Steps vote_order (reply_vote env frm g)
  unfolding reply_vote
  reply_vote-votes frm g =
      search (step_rules, persist-votes, sync-votes, of_kept_disk, send-kept) depth 8

  -- The vote is set only where none was cast, or to the same candidate.
  cast_vote :
      (n : RaftNode S R) (c : NodeId)
      → may_vote_for n.voted_for c ≡ true
      → VoteKept n (record n { voted_for = some c })
  cast_vote n c h = record { term_le = omega arith; vote_kept = λ v e p. ground arith }

  cast_if-votes :
      (n : RaftNode S R) (c : NodeId) (g : Bool)
      → (g ≡ true → may_vote_for n.voted_for c ≡ true)
      → VoteKept n (cast_if env g c n).1
  unfolding cast_if when modify ◌>>=◌
  cast_if-votes n c false h = vote_order.stays n
  cast_if-votes n c true h =
      vote_order.chain n (record n { voted_for = some c }) _ (cast_vote n c (h refl))
        (arm_election_timer-votes.at _)

  decide_vote-votes :
      (frm : NodeId) (msg : RequestVote) → Steps vote_order (decide_vote env frm msg)
  unfolding decide_vote gets ◌>>=◌
  decide_vote-votes frm msg = record {
    at = λ n.
        bind-rel vote_order (cast_if env (grants n msg) msg.candidate_id)
          (λ _. reply_vote env frm (grants n msg)) n
          (cast_if-votes n msg.candidate_id (grants n msg) (λ h. ground arith))
          (λ _ u _. (reply_vote-votes frm (grants n msg)).at u);
  }

  on_request_vote-votes :
      (frm : NodeId) (msg : RequestVote) → Steps vote_order (on_request_vote env frm msg)
  unfolding on_request_vote
  on_request_vote-votes frm msg =
      search (step_rules, become_follower-votes, reply_vote-votes, decide_vote-votes) depth 9

  on_request_vote_reply-votes :
      (frm : NodeId) (msg : RequestVoteReply) → Steps vote_order (on_request_vote_reply env frm msg)
  unfolding on_request_vote_reply
  on_request_vote_reply-votes frm msg =
      search
        (
          step_rules, unchanged, become_follower-votes, persist-votes, sync-votes, of_quiet,
          become_leader-quiet,
        )
        depth 10

  take_entry-votes : (i : Index) (e : LogEntry) → Steps vote_order (take_entry env i e)
  unfolding take_entry
  take_entry-votes i e =
      search (step_rules, unchanged, of_kept, persist_truncation-kept, on_log-votes) depth 12

  already_held-votes : (i : Index) (e : LogEntry) → Steps vote_order (already_held env i e)
  unfolding already_held
  already_held-votes i e = search step_rules depth 8

  entry_round-votes :
      (i : Index) (e : LogEntry) (skipped taken : Action S R (List LogEntry))
      → Steps vote_order skipped
      → Steps vote_order taken
      → Steps vote_order (entry_round env i e skipped taken)
  unfolding entry_round
  entry_round-votes i e skipped taken ks kt =
      search (step_rules, already_held-votes, take_entry-votes)

  take_entries-votes :
      (i : Index) (es appended : List LogEntry) → Steps vote_order (take_entries env i es appended)
  unfolding take_entries
  take_entries-votes i [] appended = Steps-pure appended
  take_entries-votes i (e ∷ es) appended =
      entry_round-votes i e _ _ (take_entries-votes (i + 1) es appended)
        (take_entries-votes (i + 1) es (appended ++ e ∷ []))

  refuse_entries-votes : (frm : NodeId) → Steps vote_order (refuse_entries env frm)
  unfolding refuse_entries
  refuse_entries-votes frm = search (step_rules, of_kept_disk, send-kept)

  accept_entries-votes :
      (frm : NodeId) (msg : AppendEntries) → Steps vote_order (accept_entries env frm msg)
  unfolding accept_entries confirm_entries
  accept_entries-votes frm msg =
      search
        (
          step_rules, unchanged, take_entries-votes, of_kept, persist_entries-kept, persist-votes,
          sync-votes, of_quiet, apply_committed-quiet, of_kept_disk, send-kept,
        )
        depth 12

  consistent-votes : (i : Index) (t : Term) → Steps vote_order (consistent {S = S} {R = R} i t)
  unfolding consistent
  consistent-votes i t = search step_rules depth 8

  follow_leader-votes :
      (frm : NodeId) (msg : AppendEntries) → Steps vote_order (follow_leader env frm msg)
  unfolding follow_leader
  follow_leader-votes frm msg =
      search
        (
          step_rules, become_follower-votes, arm_election_timer-votes, consistent-votes,
          accept_entries-votes, persist-votes, sync-votes, refuse_entries-votes,
        )
        depth 10

  on_append_entries-votes :
      (frm : NodeId) (msg : AppendEntries) → Steps vote_order (on_append_entries env frm msg)
  unfolding on_append_entries
  on_append_entries-votes frm msg =
      search (step_rules, become_follower-votes, refuse_entries-votes, follow_leader-votes) depth 9

  on_append_entries_reply-votes :
      (frm : NodeId) (msg : AppendEntriesReply)
      → Steps vote_order (on_append_entries_reply env frm msg)
  unfolding on_append_entries_reply
  on_append_entries_reply-votes frm msg =
      search
        (
          step_rules, unchanged, become_follower-votes, persist-votes, sync-votes, of_quiet,
          advance_commit_index-quiet, of_quiet, replicate_to-quiet,
        )
        depth 10

  take_request-votes :
      (frm : NodeId) (msg : ClientRequest) → Steps vote_order (take_request env frm msg)
  unfolding take_request offer_entry
  take_request-votes frm msg =
      search
        (
          step_rules, unchanged, on_log-votes, of_kept, persist_entries-kept, sync-votes, of_quiet,
          replicate_to-quiet, of_quiet, advance_commit_index-quiet,
        )
        depth 12

  on_client_request-votes :
      (frm : NodeId) (msg : ClientRequest) → Steps vote_order (on_client_request env frm msg)
  unfolding on_client_request
  on_client_request-votes frm msg =
      search (step_rules, take_request-votes, of_kept_disk, send-kept) depth 7

  campaign-votes : Steps vote_order (campaign env)
  unfolding campaign
  campaign-votes =
      search
        (
          step_rules, arm_election_timer-votes, persist-votes, sync-votes, of_quiet,
          become_leader-quiet, of_kept_disk, broadcast-kept,
        )
        depth 8

  -- The term grows before the vote is cast, so the old vote is not changed within its term.
  on_election_timeout-votes : Steps vote_order (on_election_timeout env)
  unfolding on_election_timeout become_candidate write_trace perform gets modify ◌>>=◌
  on_election_timeout-votes = record {
    at = λ n.
        vote_order.chain n _ _
          (record { term_le = omega arith; vote_kept = λ v e p. absurd (omega arith) })
          (campaign-votes.at _);
  }

  dispatch-votes : (frm : NodeId) (msg : Message) → Steps vote_order (dispatch env frm msg)
  unfolding dispatch
  dispatch-votes frm (request_vote msg) = on_request_vote-votes frm msg
  dispatch-votes frm (request_vote_reply msg) = on_request_vote_reply-votes frm msg
  dispatch-votes frm (append_entries msg) = on_append_entries-votes frm msg
  dispatch-votes frm (append_entries_reply msg) = on_append_entries_reply-votes frm msg
  dispatch-votes frm (client_request msg) = on_client_request-votes frm msg
  dispatch-votes frm (client_reply msg) = Steps-pure tt

  -- Whatever message arrives, and whether its handler returns or raises: the term does not fall, and
  -- a vote cast in a term stays the same vote for as long as the term stays.
  pub dispatch-VoteKept :
      (frm : NodeId) (msg : Message) (n : RaftNode S R) → VoteKept n (dispatch env frm msg n).1
  dispatch-VoteKept frm msg n = (dispatch-votes frm msg).at n

  -- An election timeout, whether it returns or raises, does not lower the term, and a vote cast in
  -- a term stays the same vote for as long as the term stays.
  pub on_election_timeout-VoteKept : (n : RaftNode S R) → VoteKept n (on_election_timeout env n).1
  on_election_timeout-VoteKept n = on_election_timeout-votes.at n
