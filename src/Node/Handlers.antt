-- ===== src/Node/Handlers.antt =====
-- The message handlers and the election timeout, each whole and in the source's order.
use ground_hog.Prelude.{
  ℕ, zero, suc, ◌+◌, ◌-◌, max, min, List, [], ◌∷◌, ◌++◌, Option, none, some, Bool, true, false,
  ◌&&◌, ◌||◌, not, ltb, leb, ◌==◌, if◌then◌else◌, length,
}
use ground_hog.Prelude.Dict.{Dict, nat_eq, lookup, insert}
use ground_hog.Prelude.Outcome.{Outcome}
use ground_hog.Prelude.Exec.{◌>>=◌, ◌>>◌, pure, gets, modify, lift, when, for_each}
use ground_hog.Log.{
  LogEntry, RaftLog, last_index, last_term, has_entry, term_at, truncate_from, append, create,
}
use ground_hog.Messages.{
  RequestVote, RequestVoteReply, AppendEntries, AppendEntriesReply, ClientRequest, request_vote,
  request_vote_reply, append_entries_reply, client_reply,
}
use ground_hog.Types.{NodeId, Term, Index}
use ground_hog.Node.State.{RaftNode, Services, Action, majority}
use ground_hog.Node.Plumbing.{
  send, broadcast, arm_election_timer, persist, persist_entries, persist_truncation, sync,
}
use ground_hog.Node.Roles.{
  is_leader, is_candidate, get_or, become_follower, become_candidate, become_leader, replicate_to,
  apply_committed,
}

-- `self.voted_for in (None, candidate)`
abbrev pub may_vote_for : Option NodeId → NodeId → Bool
may_vote_for none c = true
may_vote_for (some v) c = v == c

-- `theirs >= ours`, on pairs of a term and an index
abbrev pub up_to_date : Term → Index → Term → Index → Bool
up_to_date their_term their_index our_term our_index =
    ltb our_term their_term || (our_term == their_term && leb our_index their_index)

-- How many peers are known to hold the entry at `index`.
unfoldable pub count_matching : Dict NodeId Index → Index → List NodeId → ℕ
count_matching known index [] = 0
count_matching known index (p ∷ ps) =
    (if leb index (get_or (lookup p known) 0) then 1 else 0) + count_matching known index ps

module _ {S R : Type 0} where
  -- Whether `on_request_vote` grants the vote, the terms aside: the election restriction.
  abbrev pub grants : RaftNode S R → RequestVote → Bool
  grants n msg =
      may_vote_for n.voted_for msg.candidate_id
      && up_to_date msg.last_log_term msg.last_log_index (last_term n.log) (last_index n.log)

  -- A method of `RaftLog` that changes the node's log.
  unfoldable pub on_log : {A : Type 0} → (RaftLog → Outcome A × RaftLog) → Action S R A
  on_log m n = let (r, l) = m n.log in (r, record n { log = l })

  -- One candidate of `advance_commit_index`, with the candidates below it.
  unfoldable pub try_commit : Index → Action S R (Unit {0}) → Action S R (Unit {0})
  try_commit index lower = do
    n ← gets (λ n. n)
    term ← lift (term_at n.log index)
    if not (term == n.current_term)
        then lower
        else if leb (majority n) (1 + count_matching n.match_index index n.peers)
        then (do modify (λ n. record n { commit_index = index }); apply_committed)
        else lower

  -- The candidates from `base + k` down to `base + 1`.
  unfoldable pub advance_from : Index → ℕ → Action S R (Unit {0})
  advance_from base zero = pure tt
  advance_from base (suc k) = try_commit (base + suc k) (advance_from base k)

  unfoldable pub advance_commit_index : Action S R (Unit {0})
  unfolding advance_from
  advance_commit_index = do
    n ← gets (λ n. n)
    if is_leader n.role
        then advance_from n.commit_index (last_index n.log - n.commit_index)
        else pure tt

  -- Rule 2: whether the log holds the entry before the new ones.
  unfoldable pub consistent : Index → Term → Action S R Bool
  consistent prev_log_index prev_log_term = do
    n ← gets (λ n. n)
    if has_entry n.log prev_log_index
        then (do term ← lift (term_at n.log prev_log_index); pure (term == prev_log_term))
        else pure false

module _ {S R : Type 0} (env : Services S R) where
  unfoldable pub reply_vote : NodeId → Bool → Action S R (Unit {0})
  reply_vote frm granted = do
    persist env
    sync env
    n ← gets (λ n. n)
    send frm (request_vote_reply (record { term = n.current_term; vote_granted = granted }))

  -- `if granted:` the vote, and another full timeout before an election of our own.
  unfoldable pub cast_if : Bool → NodeId → Action S R (Unit {0})
  cast_if granted c =
      when granted (do modify (λ n. record n { voted_for = some c }); arm_election_timer env)

  unfoldable pub decide_vote : NodeId → RequestVote → Action S R (Unit {0})
  decide_vote frm msg = do
    n ← gets (λ n. n)
    cast_if (grants n msg) msg.candidate_id
    reply_vote frm (grants n msg)

  unfoldable pub on_request_vote : NodeId → RequestVote → Action S R (Unit {0})
  on_request_vote frm msg = do
    n ← gets (λ n. n)
    when (ltb n.current_term msg.term) (become_follower msg.term none)
    n ← gets (λ n. n)
    if ltb msg.term n.current_term then reply_vote frm false else decide_vote frm msg

  unfoldable pub on_request_vote_reply : NodeId → RequestVoteReply → Action S R (Unit {0})
  on_request_vote_reply frm msg = do
    n ← gets (λ n. n)
    if ltb n.current_term msg.term
        then (do become_follower msg.term none; persist env; sync env)
        else if not (is_candidate n.role)
            || not (msg.term == n.current_term)
            || not msg.vote_granted
        then pure tt
        else (do
          modify (λ n. record n { votes_granted = insert frm tt n.votes_granted })
          n ← gets (λ n. n)
          when (leb (majority n) (length n.votes_granted)) become_leader)

  -- Rules 3 and 4 for one entry that the log does not hold.
  unfoldable pub take_entry : Index → LogEntry → Action S R (Unit {0})
  unfolding on_log
  take_entry index incoming = do
    n ← gets (λ n. n)
    when (leb index (last_index n.log)) (do
      log ← lift (truncate_from index n.log)
      modify (λ n. record n { log = log })
      persist_truncation env index)
    on_log (append (incoming ∷ []))

  -- `if index <= last_index and term_at(index) == incoming.term: continue`
  unfoldable pub already_held : Index → LogEntry → Action S R Bool
  already_held index incoming = do
    n ← gets (λ n. n)
    if leb index (last_index n.log)
        then (do term ← lift (term_at n.log index); pure (term == incoming.term))
        else pure false

  -- One entry of a message, with what follows if it is skipped or taken.
  unfoldable pub entry_round :
      Index
      → LogEntry
      → Action S R (List LogEntry)
      → Action S R (List LogEntry)
      → Action S R (List LogEntry)
  entry_round index incoming skipped taken = do
    held ← already_held index incoming
    if held then skipped else (do take_entry index incoming; taken)

  -- The loop over the entries of a message, the first of which belongs at `index`; the result is
  -- what was appended.
  unfoldable pub take_entries : Index → List LogEntry → List LogEntry → Action S R (List LogEntry)
  take_entries index [] appended = pure appended
  take_entries index (incoming ∷ rest) appended =
      let skipped = take_entries (index + 1) rest appended in
      let taken = take_entries (index + 1) rest (appended ++ incoming ∷ []) in
      entry_round index incoming skipped taken

  unfoldable pub refuse_entries : NodeId → Action S R (Unit {0})
  refuse_entries frm = do
    n ← gets (λ n. n)
    send frm
        (append_entries_reply (record { term = n.current_term; success = false; match_index = 0 }))

  -- Once the entries are written: the sync, rule 5 and the reply.
  unfoldable pub confirm_entries : NodeId → AppendEntries → Action S R (Unit {0})
  confirm_entries frm msg = do
    persist env
    sync env
    let last_new = msg.prev_log_index + length msg.entries
    n ← gets (λ n. n)
    when (ltb n.commit_index msg.leader_commit) (do
      modify (λ n. record n { commit_index = min msg.leader_commit last_new })
      apply_committed)
    n ← gets (λ n. n)
    send frm (
        append_entries_reply
          (record { term = n.current_term; success = true; match_index = last_new }))

  -- What follows rule 2.
  unfoldable pub accept_entries : NodeId → AppendEntries → Action S R (Unit {0})
  accept_entries frm msg = do
    appended ← take_entries (msg.prev_log_index + 1) msg.entries []
    persist_entries env appended
    confirm_entries frm msg

  -- What follows rule 1.
  unfoldable pub follow_leader : NodeId → AppendEntries → Action S R (Unit {0})
  follow_leader frm msg = do
    become_follower msg.term (some msg.leader_id)
    arm_election_timer env
    matches ← consistent msg.prev_log_index msg.prev_log_term
    if matches then accept_entries frm msg else (do persist env; sync env; refuse_entries frm)

  unfoldable pub on_append_entries : NodeId → AppendEntries → Action S R (Unit {0})
  on_append_entries frm msg = do
    n ← gets (λ n. n)
    when (ltb n.current_term msg.term) (become_follower msg.term (some msg.leader_id))
    n ← gets (λ n. n)
    if ltb msg.term n.current_term then refuse_entries frm else follow_leader frm msg

  -- What a leader learns of one follower.
  abbrev pub learn_match : NodeId → Index → RaftNode S R → RaftNode S R
  learn_match frm index n =
      let known = max (get_or (lookup frm n.match_index) 0) index in
      record n {
        match_index = insert frm known n.match_index;
        next_index = insert frm (known + 1) n.next_index;
      }

  abbrev pub walk_back : NodeId → RaftNode S R → RaftNode S R
  walk_back frm n = record n {
    next_index =
        insert frm (max 1 (get_or (lookup frm n.next_index) (last_index n.log + 1) - 1))
          n.next_index;
  }

  unfoldable pub on_append_entries_reply : NodeId → AppendEntriesReply → Action S R (Unit {0})
  on_append_entries_reply frm msg = do
    n ← gets (λ n. n)
    if ltb n.current_term msg.term
        then (do become_follower msg.term none; persist env; sync env)
        else if not (is_leader n.role) || not (msg.term == n.current_term)
        then pure tt
        else if msg.success
        then (do modify (learn_match frm msg.match_index); advance_commit_index)
        else (do modify (walk_back frm); replicate_to frm)

  -- What follows the vote for itself.
  unfoldable pub campaign : Action S R (Unit {0})
  campaign = do
    arm_election_timer env
    persist env
    sync env
    n ← gets (λ n. n)
    if leb (majority n) (length n.votes_granted)
        then become_leader
        else broadcast (
            request_vote (record {
              term = n.current_term;
              candidate_id = n.node_id;
              last_log_index = last_index n.log;
              last_log_term = last_term n.log;
            }))

  unfoldable pub on_election_timeout : Action S R (Unit {0})
  unfolding campaign
  on_election_timeout = do
    modify (λ n. record n { current_term = n.current_term + 1 })
    become_candidate
    modify (λ n. record n { voted_for = some n.node_id })
    campaign

  -- The leader's part of `on_client_request`, and of it first what follows the sync.
  unfoldable pub offer_entry : Index → NodeId → ℕ → Action S R (Unit {0})
  offer_entry index frm request_id = do
    modify (λ n. record n { pending_clients = insert index (frm, request_id) n.pending_clients })
    peers ← gets (λ n. n.peers)
    for_each replicate_to peers
    advance_commit_index

  unfoldable pub take_request : NodeId → ClientRequest → Action S R (Unit {0})
  unfolding on_log
  take_request frm msg = do
    n ← gets (λ n. n)
    let entry = create n.current_term msg.command n.log
    on_log (append (entry ∷ []))
    persist_entries env (entry ∷ [])
    sync env
    offer_entry entry.index frm msg.request_id

  unfoldable pub on_client_request : NodeId → ClientRequest → Action S R (Unit {0})
  on_client_request frm msg = do
    n ← gets (λ n. n)
    if is_leader n.role
        then take_request frm msg
        else send frm (
            client_reply (record {
              request_id = msg.request_id;
              accepted = false;
              leader_hint = n.leader_id;
              value = none;
            }))
