-- ===== src/Tests/Nodes.antt =====
-- Runs of the Raft node.
use ground_hog.Prelude.{ℕ, ◌≡◌, ◌≢◌, ◌⊎◌, refl, sym, ap, [], ◌∷◌, some, true, false, arith}
use ground_hog.Prelude.Outcome.{ok}
use ground_hog.Prelude.Exec.{◌>>=◌, pure, raise, lift, gets, modify, when, for_each}
use ground_hog.Bytes.{pack_uint}
use ground_hog.Kv
use ground_hog.Kv.{put}
use ground_hog.Log.{LogEntry, last_index, last_term, entry_at, term_at, has_entry}
use ground_hog.Messages.{Message, RequestVote, request_vote}
use ground_hog.Persist
use ground_hog.Node.State.{RaftNode, leader, init}
use ground_hog.Node.Plumbing.{
  perform, write_trace, send, broadcast, cancel_if, cancel_election_timer, cancel_heartbeat, after,
  on_storage, on_rng, arm_election_timer, persist, sync,
}
use ground_hog.Node.Roles.{
  is_leader, become_follower, become_candidate, apply_committed, apply_rounds, apply_round,
  apply_next, pay,
}
use ground_hog.Node.Handlers.{
  on_request_vote, decide_vote, cast_if, reply_vote, on_election_timeout, campaign,
  advance_commit_index, advance_from, try_commit, count_matching,
}
use ground_hog.Node.Lifecycle.{dispatch}
use ground_hog.Node.Durable.{IsDurable}
use ground_hog.Node.Durable.Restart.{init-IsDurable, dispatch-IsDurable, recover-IsDurable}
use ground_hog.Node.Candidacy.{Stands, on_election_timeout-StandsDurably}
use ground_hog.Node.VoteOrder.{VoteKept}
use ground_hog.Node.Order.{dispatch-VoteKept, on_election_timeout-VoteKept}
use ground_hog.Node.Votes.{Reply, on_request_vote-Reply}
use ground_hog.Node.Commit.{MayCommit, advance_commit_index-MayCommit}
use ground_hog.Node.Applied.{Applies, apply_committed-Applies}
use ground_hog.Tests.{
  Memory, memory, Anything, in_memory, flushed, memory-Contract, services, node, ask,
}

abbrev after_ask : RaftNode Memory (Unit {0})
after_ask = (dispatch services 2 (request_vote ask) node).1

abbrev after_timeout : RaftNode Memory (Unit {0})
after_timeout = (on_election_timeout services node).1

-- A leader of three that has one entry of its own term, which one peer holds.
abbrev first_entry : LogEntry
first_entry = record { term = 1; index = 1; command = put (107 ∷ []) (118 ∷ []) }

abbrev one_entry : RaftNode Memory (Unit {0})
one_entry = record node {
  current_term = 1;
  role = leader;
  log = first_entry ∷ [];
  match_index = (2, 1) ∷ [];
}

abbrev committed : RaftNode Memory (Unit {0})
committed = (advance_commit_index one_entry).1

node-IsDurable : IsDurable services Anything in_memory flushed memory-Contract node
node-IsDurable =
    init-IsDurable services Anything in_memory flushed memory-Contract 1 (2 ∷ 3 ∷ []) ([], []) tt
      false (λ e. omega arith) tt refl refl

asked : dispatch services 2 (request_vote ask) node ≡ (ok tt, after_ask)
unfolding dispatch on_request_vote decide_vote cast_if reply_vote become_follower perform
    write_trace send broadcast cancel_if cancel_election_timer cancel_heartbeat after on_storage
    on_rng arm_election_timer persist sync ◌>>=◌ pure raise lift gets modify when for_each
    last_index last_term entry_at term_at has_entry Persist.save_state Persist.encode_state_record
    pack_uint init
asked = refl

timed_out : on_election_timeout services node ≡ (ok tt, after_timeout)
unfolding on_election_timeout campaign become_candidate perform write_trace send broadcast cancel_if
    cancel_election_timer cancel_heartbeat after on_storage on_rng arm_election_timer persist sync
    ◌>>=◌ pure raise lift gets modify when for_each last_index last_term entry_at term_at has_entry
    Persist.save_state Persist.encode_state_record pack_uint init
timed_out = refl

advanced : advance_commit_index one_entry ≡ (ok tt, committed)
unfolding advance_commit_index advance_from try_commit count_matching apply_committed apply_rounds
    apply_round apply_next pay perform write_trace send broadcast cancel_if cancel_election_timer
    cancel_heartbeat after on_storage on_rng arm_election_timer persist sync ◌>>=◌ pure raise lift
    gets modify when for_each last_index last_term entry_at term_at has_entry init
advanced = refl

abbrev candidate_of : Message → ℕ
candidate_of (request_vote msg) = msg.candidate_id
candidate_of _ = 0

ask-named : (msg : RequestVote) → request_vote ask ≡ request_vote msg → msg.candidate_id ≢ 0
ask-named msg same zero_id = omega (arith, ap candidate_of same)

after_ask-IsDurable : IsDurable services Anything in_memory flushed memory-Contract after_ask
after_ask-IsDurable =
    dispatch-IsDurable services Anything in_memory flushed memory-Contract 2 (request_vote ask) node
      after_ask ask-named node-IsDurable asked

dispatch-IsDurable_example : IsDurable services Anything in_memory flushed memory-Contract after_ask
dispatch-IsDurable_example =
    dispatch-IsDurable services Anything in_memory flushed memory-Contract 2 (request_vote ask) node
      after_ask ask-named node-IsDurable asked

on_election_timeout-StandsDurably_example :
    IsDurable services Anything in_memory flushed memory-Contract after_timeout
    × Stands services node after_timeout
on_election_timeout-StandsDurably_example =
    on_election_timeout-StandsDurably services Anything in_memory flushed memory-Contract node
      after_timeout node-IsDurable timed_out

recover-IsDurable_example :
    Persist.recover memory after_ask.storage
    ≡ (ok (record { current_term = 1; voted_for = some 2 }, []), after_ask.storage)
unfolding dispatch on_request_vote decide_vote cast_if reply_vote become_follower perform
    write_trace send broadcast cancel_if cancel_election_timer cancel_heartbeat after on_storage
    on_rng arm_election_timer persist sync ◌>>=◌ pure raise lift gets modify when for_each
    last_index last_term entry_at term_at has_entry Persist.save_state Persist.encode_state_record
    pack_uint init
recover-IsDurable_example =
    recover-IsDurable services Anything in_memory flushed memory-Contract after_ask
      after_ask.storage after_ask.storage after_ask.storage.0 after_ask-IsDurable tt
      (sym after_ask-IsDurable.synced) refl

dispatch-VoteKept_example : VoteKept node after_ask
dispatch-VoteKept_example = dispatch-VoteKept services 2 (request_vote ask) node

on_election_timeout-VoteKept_example : VoteKept node after_timeout
on_election_timeout-VoteKept_example = on_election_timeout-VoteKept services node

answered : on_request_vote services 2 ask node ≡ (ok tt, after_ask)
unfolding dispatch
answered = asked

on_request_vote-Reply_example : Reply services 2 ask [] after_ask
unfolding init
on_request_vote-Reply_example = on_request_vote-Reply services 2 ask node after_ask answered

advance_commit_index-MayCommit_example :
    (committed.commit_index ≡ one_entry.commit_index)
    ⊎ (MayCommit one_entry committed.commit_index × (is_leader one_entry.role ≡ true))
advance_commit_index-MayCommit_example = advance_commit_index-MayCommit one_entry committed advanced

abbrev behind : RaftNode Memory (Unit {0})
behind = record one_entry { commit_index = 1 }

apply_committed-Applies_example :
    Applies behind (apply_committed behind) 1 (Kv.apply (put (107 ∷ []) (118 ∷ [])) Kv.empty)
unfolding init last_index
apply_committed-Applies_example =
    apply_committed-Applies behind (refl, tt) (omega arith) (omega arith)
