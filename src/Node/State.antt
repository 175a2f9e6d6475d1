-- ===== src/Node/State.antt =====
-- The state of `class RaftNode`, and what a node does to the world around it. The clock, the network
-- and the trace only take calls from the node, so the calls are kept in order as effects; storage
-- and the random source answer, so their states are fields and their methods are parameters.
use ground_hog.Prelude.{ℕ, ◌+◌, ◌/◌, ◌*◌, List, [], Option, none, Bool, true, length}
use ground_hog.Prelude.Dict.{Dict}
use ground_hog.Prelude.Exec.{Exec}
use ground_hog.Kv
use ground_hog.Kv.{KvStore, Command}
use ground_hog.Log.{RaftLog, sentinel_index}
use ground_hog.Messages.{Message}
use ground_hog.Storage.{Storage}
use ground_hog.Types.{NodeId, Term, Index, Tick, millisecond}

pub data Role : Type 0 where
  follower candidate leader : Role

-- ELECTION_TIMEOUT, both ends, and HEARTBEAT_INTERVAL
abbrev pub election_timeout_low : Tick
election_timeout_low = 150 * millisecond

abbrev pub election_timeout_high : Tick
election_timeout_high = 300 * millisecond

abbrev pub heartbeat_interval : Tick
heartbeat_interval = 50 * millisecond

-- The callbacks that the node hands to `clock.after`.
pub data TimerKind : Type 0 where
  election_timeout heartbeat : TimerKind

-- The records that the node writes to the trace, without the tick and the node that each carries.
pub data TraceRecord : Type 0 where
  crashed : Role → Term → TraceRecord
  restarted : Term → Option NodeId → ℕ → TraceRecord
  received : NodeId → Message → TraceRecord
  disk_failed : TraceRecord
  stepped_down : Role → Term → TraceRecord
  stands : Term → TraceRecord
  leads : Term → Index → TraceRecord
  sent : NodeId → Message → TraceRecord
  applied : Index → Command → TraceRecord

pub data Effect : Type 0 where
  deliver : NodeId → Message → Effect
  start_timer : ℕ → Tick → TimerKind → Effect
  cancel_timer : ℕ → Effect
  trace : TraceRecord → Effect
  report_failure : NodeId → Effect

pub record RaftNode (S R : Type 0) : Type 0 where
  pub node_id : NodeId
  pub peers : List NodeId
  pub storage : S
  pub rng : R
  -- whether `on_failure` is given
  pub supervised : Bool
  pub current_term : Term
  pub voted_for : Option NodeId
  pub log : RaftLog
  pub role : Role
  pub commit_index : Index
  pub last_applied : Index
  pub kv : KvStore
  pub votes_granted : Dict NodeId (Unit {0})
  pub next_index : Dict NodeId Index
  pub match_index : Dict NodeId Index
  pub leader_id : Option NodeId
  pub running : Bool
  pub election_timer : Option ℕ
  pub heartbeat_timer : Option ℕ
  pub pending_clients : Dict Index (NodeId × ℕ)
  -- the handle of the next timer, and the calls made so far
  pub next_timer : ℕ
  pub effects : List Effect

-- What the node calls and does not implement.
pub record Services (S R : Type 0) : Type 0 where
  pub store : Storage S
  pub between : ℕ → ℕ → Exec R ℕ

module _ {S R : Type 0} where
  -- `RaftNode(...)`
  unfoldable pub init : NodeId → List NodeId → S → R → Bool → RaftNode S R
  init node_id peers storage rng supervised = record {
    node_id = node_id;
    peers = peers;
    storage = storage;
    rng = rng;
    supervised = supervised;
    current_term = 0;
    voted_for = none;
    log = [];
    role = follower;
    commit_index = sentinel_index;
    last_applied = sentinel_index;
    kv = Kv.empty;
    votes_granted = [];
    next_index = [];
    match_index = [];
    leader_id = none;
    running = true;
    election_timer = none;
    heartbeat_timer = none;
    pending_clients = [];
    next_timer = 0;
    effects = [];
  }

  abbrev pub cluster_size : RaftNode S R → ℕ
  cluster_size n = length n.peers + 1

  abbrev pub majority : RaftNode S R → ℕ
  majority n = cluster_size n / 2 + 1

abbrev pub Action : Type 0 → Type 0 → Type 0 → Type 0
Action S R A = Exec (RaftNode S R) A
