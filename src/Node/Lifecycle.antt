-- ===== src/Node/Lifecycle.antt =====
-- Starting, crashing and coming back; the dispatch of messages and timers, and the guard that turns
-- a failed disk into a crash.
use ground_hog.Prelude.{[], none, true, false, ◌&&◌, length}
use ground_hog.Prelude.Outcome.{Outcome, raised, disk_error}
use ground_hog.Prelude.Exec.{◌>>=◌, ◌>>◌, pure, gets, modify, lift, when}
use ground_hog.Kv
use ground_hog.Log.{sentinel_index}
use ground_hog.Messages.{
  Message, request_vote, request_vote_reply, append_entries, append_entries_reply, client_request,
  client_reply,
}
use ground_hog.Persist
use ground_hog.Types.{NodeId}
use ground_hog.Node.State.{
  RaftNode, Services, Action, follower, crashed, restarted, received, disk_failed, report_failure,
}
use ground_hog.Node.Plumbing.{perform, write_trace, cancel_timers, arm_election_timer, on_storage}
use ground_hog.Node.Roles.{is_leader, send_heartbeats}
use ground_hog.Node.Handlers.{
  on_request_vote, on_request_vote_reply, on_append_entries, on_append_entries_reply,
  on_client_request, on_election_timeout,
}

module _ {S R : Type 0} where
  -- What `crash` resets; the disk, the identity and the peers stay.
  abbrev pub forget : RaftNode S R → RaftNode S R
  forget n = record n {
    role = follower;
    commit_index = sentinel_index;
    last_applied = sentinel_index;
    kv = Kv.empty;
    votes_granted = [];
    next_index = [];
    match_index = [];
    leader_id = none;
    pending_clients = [];
    current_term = 0;
    voted_for = none;
    log = [];
  }

  unfoldable pub crash : Action S R (Unit {0})
  unfolding cancel_timers write_trace
  crash = do
    running ← gets (λ n. n.running)
    when running (do
      modify (λ n. record n { running = false })
      cancel_timers
      n ← gets (λ n. n)
      write_trace (crashed n.role n.current_term)
      modify forget)

  after_disk_error : Action S R (Unit {0})
  unfolding crash perform
  after_disk_error = do
    write_trace disk_failed
    crash
    n ← gets (λ n. n)
    when n.supervised (perform (report_failure n.node_id))

  -- `try: action() except DiskError`: any other exception goes on.
  on_outcome : Outcome (Unit {0}) → Action S R (Unit {0})
  unfolding after_disk_error
  on_outcome (raised disk_error) = after_disk_error
  on_outcome r = lift r

  unfoldable pub guard : Action S R (Unit {0}) → Action S R (Unit {0})
  unfolding on_outcome
  guard action n = let (r, n') = action n in on_outcome r n'

module _ {S R : Type 0} (env : Services S R) where
  unfoldable pub start : Action S R (Unit {0})
  start = arm_election_timer env

  unfoldable pub restart : Action S R (Unit {0})
  restart = do
    recovered ← on_storage (Persist.recover env.store)
    modify (λ n. record n {
      current_term = recovered.0.current_term;
      voted_for = recovered.0.voted_for;
      log = recovered.1;
      running = true;
    })
    n ← gets (λ n. n)
    write_trace (restarted n.current_term n.voted_for (length n.log))
    arm_election_timer env

  unfoldable pub dispatch : NodeId → Message → Action S R (Unit {0})
  dispatch frm (request_vote msg) = on_request_vote env frm msg
  dispatch frm (request_vote_reply msg) = on_request_vote_reply env frm msg
  dispatch frm (append_entries msg) = on_append_entries env frm msg
  dispatch frm (append_entries_reply msg) = on_append_entries_reply env frm msg
  dispatch frm (client_request msg) = on_client_request env frm msg
  dispatch frm (client_reply msg) = pure tt

  unfoldable pub on_message : NodeId → Message → Action S R (Unit {0})
  unfolding guard dispatch
  on_message frm msg = do
    running ← gets (λ n. n.running)
    when running (do write_trace (received frm msg); guard (dispatch frm msg))

  unfoldable pub fire_election_timeout : Action S R (Unit {0})
  unfolding guard
  fire_election_timeout = do
    modify (λ n. record n { election_timer = none })
    running ← gets (λ n. n.running)
    when running (guard (on_election_timeout env))

  unfoldable pub fire_heartbeat : Action S R (Unit {0})
  unfolding guard
  fire_heartbeat = do
    modify (λ n. record n { heartbeat_timer = none })
    n ← gets (λ n. n)
    when (n.running && is_leader n.role) (guard send_heartbeats)
