-- ===== src/Node/Frame.antt =====
-- What the node's plumbing leaves alone: traces, messages and timers touch neither the node's own
-- state nor its storage; persistence touches the storage only.
use ground_hog.Prelude.{ℕ, ◌≡◌, refl, ◌∙◌, List, Option, none, some, Bool}
use ground_hog.Prelude.Dict.{Dict}
use ground_hog.Prelude.Exec.{Exec, modify}
use ground_hog.Prelude.Steps.{Preorder, Steps, Steps-pure, Steps-modify, step_rules}
use ground_hog.Kv.{KvStore}
use ground_hog.Log.{LogEntry, RaftLog}
use ground_hog.Messages.{Message}
use ground_hog.Types.{NodeId, Term, Index, Tick}
use ground_hog.Node.State.{
  RaftNode, Services, Role, Effect, TraceRecord, TimerKind, trace, cancel_timer,
}
use ground_hog.Node.Plumbing.{
  perform, write_trace, send, broadcast, cancel_if, cancel_election_timer, cancel_heartbeat,
  cancel_timers, after, arm_heartbeat_timer, arm_election_timer, on_storage, on_rng, persist,
  persist_entries, persist_truncation, sync,
}

-- The node's own state: all but storage, randomness, timers and effects.
pub record Core : Type 0 where
  pub node_id : NodeId
  pub peers : List NodeId
  pub current_term : Term
  pub voted_for : Option NodeId
  pub log : RaftLog
  pub role : Role
  pub commit_index : Index
  pub last_applied : Index
  pub kv : KvStore
  pub votes_granted : Dict NodeId (Unit {0})
  pub next_index : Dict NodeId Index
  pub match_index : Dict NodeId Index
  pub leader_id : Option NodeId
  pub running : Bool
  pub pending_clients : Dict Index (NodeId × ℕ)

module _ {S R : Type 0} where
  abbrev pub core : RaftNode S R → Core
  core n = record {
    node_id = n.node_id;
    peers = n.peers;
    current_term = n.current_term;
    voted_for = n.voted_for;
    log = n.log;
    role = n.role;
    commit_index = n.commit_index;
    last_applied = n.last_applied;
    kv = n.kv;
    votes_granted = n.votes_granted;
    next_index = n.next_index;
    match_index = n.match_index;
    leader_id = n.leader_id;
    running = n.running;
    pending_clients = n.pending_clients;
  }

  pub record Kept (n n' : RaftNode S R) : Type 0 where
    pub same_core : core n ≡ core n'

  pub record KeptDisk (n n' : RaftNode S R) : Type 0 where
    pub same_core : core n ≡ core n'
    pub same_disk : n.storage ≡ n'.storage

  abbrev pub kept : Preorder (RaftNode S R)
  kept = record {
    rel = Kept;
    stays = λ n. record { same_core = refl };
    chain = λ a b c h k. record { same_core = h.same_core ∙ k.same_core };
  }

  abbrev pub kept_disk : Preorder (RaftNode S R)
  kept_disk = record {
    rel = KeptDisk;
    stays = λ n. record { same_core = refl; same_disk = refl };
    chain = λ a b c h k. record {
      same_core = h.same_core ∙ k.same_core;
      same_disk = h.same_disk ∙ k.same_disk;
    };
  }

  set_election :
      (o : Option ℕ)
      → Steps kept_disk (modify (λ (n : RaftNode S R). record n { election_timer = o }))
  set_election o = Steps-modify _ (λ n. record { same_core = refl; same_disk = refl })

  set_heartbeat :
      (o : Option ℕ)
      → Steps kept_disk (modify (λ (n : RaftNode S R). record n { heartbeat_timer = o }))
  set_heartbeat o = Steps-modify _ (λ n. record { same_core = refl; same_disk = refl })

  set_next : (k : ℕ) → Steps kept_disk (modify (λ (n : RaftNode S R). record n { next_timer = k }))
  set_next k = Steps-modify _ (λ n. record { same_core = refl; same_disk = refl })

  pub perform-kept : (e : Effect) → Steps kept_disk (perform {S = S} {R = R} e)
  unfolding perform
  perform-kept e = Steps-modify _ (λ n. record { same_core = refl; same_disk = refl })

  pub write_trace-kept : (r : TraceRecord) → Steps kept_disk (write_trace {S = S} {R = R} r)
  unfolding write_trace
  write_trace-kept r = perform-kept (trace r)

  pub send-kept : (to : NodeId) (msg : Message) → Steps kept_disk (send {S = S} {R = R} to msg)
  unfolding send
  send-kept to msg = search (step_rules, perform-kept)

  pub broadcast-kept : (msg : Message) → Steps kept_disk (broadcast {S = S} {R = R} msg)
  unfolding broadcast
  broadcast-kept msg = search (step_rules, send-kept)

  cancel_if-kept : (o : Option ℕ) → Steps kept_disk (cancel_if {S = S} {R = R} o)
  unfolding cancel_if
  cancel_if-kept none = Steps-pure tt
  cancel_if-kept (some id) = perform-kept (cancel_timer id)

  pub cancel_election_timer-kept : Steps kept_disk (cancel_election_timer {S = S} {R = R})
  unfolding cancel_election_timer
  cancel_election_timer-kept = search (step_rules, cancel_if-kept, set_election)

  pub cancel_heartbeat-kept : Steps kept_disk (cancel_heartbeat {S = S} {R = R})
  unfolding cancel_heartbeat
  cancel_heartbeat-kept = search (step_rules, cancel_if-kept, set_heartbeat)

  pub cancel_timers-kept : Steps kept_disk (cancel_timers {S = S} {R = R})
  unfolding cancel_timers
  cancel_timers-kept = search (step_rules, cancel_election_timer-kept, cancel_heartbeat-kept)

  after-kept : (d : Tick) (k : TimerKind) → Steps kept_disk (after {S = S} {R = R} d k)
  unfolding after
  after-kept d k = search (step_rules, perform-kept, set_next) depth 8

  pub arm_heartbeat_timer-kept : Steps kept_disk (arm_heartbeat_timer {S = S} {R = R})
  unfolding arm_heartbeat_timer
  arm_heartbeat_timer-kept = search (step_rules, cancel_heartbeat-kept, after-kept, set_heartbeat)

  on_rng-kept : {A : Type 0} (m : Exec R A) → Steps kept_disk (on_rng {S = S} m)
  unfolding on_rng
  on_rng-kept m = record { at = λ n. record { same_core = refl; same_disk = refl } }

  pub on_storage-kept : {A : Type 0} (m : Exec S A) → Steps kept (on_storage {R = R} m)
  unfolding on_storage
  on_storage-kept m = record { at = λ n. record { same_core = refl } }

module _ {S R : Type 0} (env : Services S R) where
  pub arm_election_timer-kept : Steps kept_disk (arm_election_timer env)
  unfolding arm_election_timer
  arm_election_timer-kept =
      search (step_rules, cancel_election_timer-kept, on_rng-kept, after-kept, set_election) depth 8

  pub persist-kept : Steps kept (persist env)
  unfolding persist
  persist-kept = search (step_rules, on_storage-kept)

  pub persist_entries-kept : (es : List LogEntry) → Steps kept (persist_entries env es)
  unfolding persist_entries
  persist_entries-kept es = on_storage-kept _

  pub persist_truncation-kept : (i : Index) → Steps kept (persist_truncation env i)
  unfolding persist_truncation
  persist_truncation-kept i = on_storage-kept _

  pub sync-kept : Steps kept (sync env)
  unfolding sync
  sync-kept = on_storage-kept _
