-- ===== src/Node/Roles.antt =====
-- Role transitions, replication to one follower, and the all-servers apply rule.
use ground_hog.Prelude.{
  ℕ, zero, suc, ◌+◌, ◌-◌, [], ◌∷◌, Option, none, some, Bool, true, false, ltb, leb, if◌then◌else◌,
  map,
}
use ground_hog.Prelude.Dict.{nat_eq, lookup, erase}
use ground_hog.Prelude.Outcome.{ok}
use ground_hog.Prelude.Exec.{◌>>=◌, ◌>>◌, pure, gets, modify, lift, for_each}
use ground_hog.Kv
use ground_hog.Log.{last_index, term_at, entry_at, slice_from, sentinel_index}
use ground_hog.Messages.{append_entries, client_reply}
use ground_hog.Types.{NodeId, Term, Index}
use ground_hog.Node.State.{
  RaftNode, Action, Role, follower, candidate, leader, stepped_down, stands, leads, applied,
}
use ground_hog.Node.Plumbing.{
  write_trace, send, cancel_heartbeat, cancel_election_timer, arm_heartbeat_timer,
}

abbrev pub is_leader : Role → Bool
is_leader leader = true
is_leader _ = false

abbrev pub is_candidate : Role → Bool
is_candidate candidate = true
is_candidate _ = false

abbrev pub is_follower : Role → Bool
is_follower follower = true
is_follower _ = false

abbrev pub get_or : {A : Type 0} → Option A → A → A
get_or none a = a
get_or (some b) a = b

module _ {S R : Type 0} where
  -- The fields that `become_follower` sets before it cancels the heartbeat.
  abbrev pub step_down : Term → Option NodeId → RaftNode S R → RaftNode S R
  step_down term leader_id n = record n {
    current_term = if ltb n.current_term term then term else n.current_term;
    voted_for = if ltb n.current_term term then none else n.voted_for;
    role = follower;
    leader_id = leader_id;
    votes_granted = [];
  }

  unfoldable pub become_follower : Term → Option NodeId → Action S R (Unit {0})
  become_follower term leader_id = do
    was ← gets (λ n. n.role)
    modify (step_down term leader_id)
    cancel_heartbeat
    now ← gets (λ n. n.current_term)
    if is_follower was then pure tt else write_trace (stepped_down was now)

  unfoldable pub become_candidate : Action S R (Unit {0})
  become_candidate = do
    modify
        (λ n. record n { role = candidate; leader_id = none; votes_granted = (n.node_id, tt) ∷ [] })
    term ← gets (λ n. n.current_term)
    write_trace (stands term)

  -- What `replicate_to` sends: the entries from `next_index` on, behind the entry before them.
  unfoldable pub replicate_from : NodeId → Index → Action S R (Unit {0})
  replicate_from peer next_index = do
    log ← gets (λ n. n.log)
    entries ← lift (if leb next_index (last_index log) then slice_from log next_index else ok [])
    prev_log_term ← lift (term_at log (next_index - 1))
    n ← gets (λ n. n)
    send peer (
        append_entries (record {
          term = n.current_term;
          leader_id = n.node_id;
          prev_log_index = next_index - 1;
          prev_log_term = prev_log_term;
          entries = entries;
          leader_commit = n.commit_index;
        }))

  unfoldable pub replicate_to : NodeId → Action S R (Unit {0})
  unfolding replicate_from
  replicate_to peer = do
    n ← gets (λ n. n)
    if is_leader n.role
        then replicate_from peer (get_or (lookup peer n.next_index) (last_index n.log + 1))
        else pure tt

  unfoldable pub send_heartbeats : Action S R (Unit {0})
  send_heartbeats = do peers ← gets (λ n. n.peers); for_each replicate_to peers; arm_heartbeat_timer

  -- The leader-only state, reinitialised.
  abbrev pub take_charge : RaftNode S R → RaftNode S R
  take_charge n = record n {
    role = leader;
    leader_id = some n.node_id;
    next_index = map (λ peer. (peer, last_index n.log + 1)) n.peers;
    match_index = map (λ peer. (peer, sentinel_index)) n.peers;
  }

  unfoldable pub become_leader : Action S R (Unit {0})
  become_leader = do
    modify take_charge
    cancel_election_timer
    n ← gets (λ n. n)
    write_trace (leads n.current_term (last_index n.log))
    send_heartbeats

  -- The debt to a client is paid once.
  unfoldable pub pay : Option (NodeId × ℕ) → Action S R (Unit {0})
  pay none = pure tt
  pay (some (client, request_id)) = send client (
      client_reply
        (record { request_id = request_id; accepted = true; leader_hint = none; value = none }))

  -- One round of `_apply_committed`.
  unfoldable pub apply_next : Action S R (Unit {0})
  apply_next = do
    modify (λ n. record n { last_applied = n.last_applied + 1 })
    n ← gets (λ n. n)
    entry ← lift (entry_at n.log n.last_applied)
    modify (λ n. record n { kv = Kv.apply entry.command n.kv })
    write_trace (applied entry.index entry.command)
    owed ← gets (λ n. lookup entry.index n.pending_clients)
    modify (λ n. record n { pending_clients = erase entry.index n.pending_clients })
    pay owed

  -- The test of the loop of `_apply_committed`, with the rounds that follow.
  unfoldable pub apply_round : Action S R (Unit {0}) → Action S R (Unit {0})
  apply_round rest = do
    n ← gets (λ n. n)
    if ltb n.last_applied n.commit_index then (do apply_next; rest) else pure tt

  -- The loop, with fuel.
  unfoldable pub apply_rounds : ℕ → Action S R (Unit {0})
  apply_rounds zero = pure tt
  apply_rounds (suc rounds) = apply_round (apply_rounds rounds)

  -- Each round takes `last_applied` one step towards `commit_index`.
  unfoldable pub apply_committed : Action S R (Unit {0})
  apply_committed = do rounds ← gets (λ n. n.commit_index - n.last_applied); apply_rounds rounds
