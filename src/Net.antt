-- ===== src/Net.antt =====
-- groundhog/sim/net.py: the network that drops, delays, duplicates, reorders and splits. The callbacks
-- that `register` takes are the nodes' own code: the network only calls them, so the calls are kept
-- in order, as are the records that it writes to the trace. `arrival` is the action that the clock
-- holds for `lambda: self._arrive(frm, to, msg)`. The `describe` methods only render a record.
pub mod Arrivals
pub mod Waking
use ground_hog.Prelude.{
  ℕ, ◌+◌, ◌*◌, length, List, [], ◌∷◌, ◌++◌, Option, none, some, Bool, true, false, ◌&&◌, ◌||◌, not,
  ◌==◌, if◌then◌else◌,
}
use ground_hog.Prelude.Dict.{Dict, Text, nat_eq, lookup, insert, contains}
use ground_hog.Prelude.Outcome.{Outcome, ok, raised, value_error, key_error}
use ground_hog.Prelude.Exec.{Exec, pure, raise, gets, modify, when, for_each, ◌>>=◌, ◌>>◌}
use ground_hog.Clock
use ground_hog.Clock.{SimClock}
use ground_hog.Disk.{Draws}
use ground_hog.Types.{NodeId, Tick, millisecond}

pub data NodeState : Type 0 where
  running crashed hung : NodeState

pub record NetworkFaults : Type 0 where
  pub latency : Tick × Tick
  pub drop_percent : ℕ
  pub duplicate_percent : ℕ

abbrev pub default_faults : NetworkFaults
default_faults = record {
  latency = (millisecond, 10 * millisecond);
  drop_percent = 0;
  duplicate_percent = 0;
}

pub record Partition : Type 0 where
  pub side_a : List NodeId
  pub side_b : List NodeId
  pub one_way : Bool

-- `node in side`
abbrev pub on_side : NodeId → List NodeId → Bool
on_side i [] = false
on_side i (j ∷ js) = i == j || on_side i js

unfoldable pub blocks : Partition → NodeId → NodeId → Bool
blocks p frm to =
    (on_side frm p.side_a && on_side to p.side_b)
    || (not p.one_way && (on_side frm p.side_b && on_side to p.side_a))

-- The records that the network writes, without the tick.
pub data NetRecord (M : Type 0) : Type 0 where
  net_partition : Partition → NetRecord M
  net_heal : Partition → NetRecord M
  net_drop : NodeId → NodeId → M → NetRecord M
  net_duplicate : NodeId → NodeId → M → NetRecord M
  net_hold : NodeId → NodeId → M → NetRecord M
  net_release : NodeId → ℕ → NetRecord M

-- A message with its sender and its addressee.
pub record Packet (M : Type 0) : Type 0 where
  pub frm : NodeId
  pub to : NodeId
  pub msg : M

pub record SimNetwork (A M R : Type 0) : Type 0 where
  pub rng : R
  pub clock : SimClock A
  pub faults : NetworkFaults
  pub inboxes : Dict NodeId (Unit {0})
  pub states : Dict NodeId NodeState
  pub held : Dict NodeId (List (NodeId × M))
  pub partition : Option Partition
  pub delivered : ℕ
  pub dropped : ℕ
  -- the calls of the inboxes, and the trace
  pub calls : List (Packet M)
  pub trace : List (NetRecord M)

-- The names of the events: "net.deliver", "net.deliver_dup" and "net.deliver_held".
abbrev pub net_deliver : Text
net_deliver = 110 ∷ 101 ∷ 116 ∷ 46 ∷ 100 ∷ 101 ∷ 108 ∷ 105 ∷ 118 ∷ 101 ∷ 114 ∷ []

abbrev pub net_deliver_dup : Text
net_deliver_dup =
    110 ∷ 101 ∷ 116 ∷ 46 ∷ 100 ∷ 101 ∷ 108 ∷ 105 ∷ 118 ∷ 101 ∷ 114 ∷ 95 ∷ 100 ∷ 117 ∷ 112 ∷ []

abbrev pub net_deliver_held : Text
net_deliver_held =
    110 ∷ 101 ∷ 116 ∷ 46 ∷ 100 ∷ 101 ∷ 108 ∷ 105 ∷ 118 ∷ 101 ∷ 114 ∷ 95 ∷ 104 ∷ 101 ∷ 108 ∷ 100 ∷ []

-- Whether the partition that is up, if any, blocks the way.
abbrev pub cut_off : Option Partition → NodeId → NodeId → Bool
cut_off none frm to = false
cut_off (some p) frm to = blocks p frm to

-- `d[k]`
abbrev pub at_key : {S V : Type 0} → Option V → Exec S V
at_key none = raise key_error
at_key (some v) = pure v

abbrev pub is_hung : NodeState → Bool
is_hung hung = true
is_hung _ = false

module _ {A M R : Type 0} where
  -- `SimNetwork(...)`
  abbrev pub new_network : R → SimClock A → NetworkFaults → SimNetwork A M R
  new_network rng clock faults = record {
    rng = rng;
    clock = clock;
    faults = faults;
    inboxes = [];
    states = [];
    held = [];
    partition = none;
    delivered = 0;
    dropped = 0;
    calls = [];
    trace = [];
  }

  unfoldable pub register : NodeId → Exec (SimNetwork A M R) (Unit {0})
  register node_id = do
    known ← gets (λ n. contains node_id n.inboxes)
    when known (raise value_error)
    modify (λ n. record n {
      inboxes = insert node_id tt n.inboxes;
      states = insert node_id running n.states;
      held = insert node_id [] n.held;
    })

  -- `_record`
  unfoldable pub write_record : NetRecord M → Exec (SimNetwork A M R) (Unit {0})
  write_record r = modify (λ n. record n { trace = n.trace ++ r ∷ [] })

  unfoldable pub drop_packet : NodeId → NodeId → M → Exec (SimNetwork A M R) (Unit {0})
  unfolding write_record
  drop_packet frm to msg = do
    modify (λ n. record n { dropped = n.dropped + 1 })
    write_record (net_drop frm to msg)

  unfoldable pub split : Partition → Exec (SimNetwork A M R) (Unit {0})
  unfolding write_record
  split p = do modify (λ n. record n { partition = some p }); write_record (net_partition p)

  unfoldable pub heal_record : Option Partition → Exec (SimNetwork A M R) (Unit {0})
  unfolding write_record
  heal_record none = pure tt
  heal_record (some p) = write_record (net_heal p)

  unfoldable pub heal : Exec (SimNetwork A M R) (Unit {0})
  unfolding heal_record
  heal = do p ← gets (λ n. n.partition); heal_record p; modify (λ n. record n { partition = none })

  -- What happens to a packet that is not cut off.
  unfoldable pub arrive_at : NodeId → NodeId → M → NodeState → Exec (SimNetwork A M R) (Unit {0})
  unfolding drop_packet write_record
  arrive_at frm to msg crashed = drop_packet frm to msg
  arrive_at frm to msg hung = do
    packets ← gets (λ n. lookup to n.held)
    packets ← at_key packets
    modify (λ n. record n { held = insert to (packets ++ (frm, msg) ∷ []) n.held })
    write_record (net_hold frm to msg)
  arrive_at frm to msg running = modify (λ n. record n {
    delivered = n.delivered + 1;
    calls = n.calls ++ record { frm = frm; to = to; msg = msg } ∷ [];
  })

  unfoldable pub arrive_unless : NodeId → NodeId → M → Bool → Exec (SimNetwork A M R) (Unit {0})
  unfolding arrive_at drop_packet
  arrive_unless frm to msg true = drop_packet frm to msg
  arrive_unless frm to msg false = do
    known ← gets (λ n. lookup to n.states)
    state ← at_key known
    arrive_at frm to msg state

  -- `_arrive`
  unfoldable pub arrive : NodeId → NodeId → M → Exec (SimNetwork A M R) (Unit {0})
  unfolding arrive_unless
  arrive frm to msg = do cut ← gets (λ n. cut_off n.partition frm to); arrive_unless frm to msg cut

  module _ (draws : Draws R) (arrival : NodeId → NodeId → M → A) where
    -- A draw from the network's source of randomness.
    unfoldable pub draw : {X : Type 0} → Exec R X → Exec (SimNetwork A M R) X
    draw m n = let r = m n.rng in (r.0, record n { rng = r.1 })

    -- `_schedule`, with a delay.
    unfoldable pub schedule_after :
        NodeId → NodeId → M → Text → Tick → Exec (SimNetwork A M R) (Unit {0})
    schedule_after frm to msg tag delay =
        modify (λ n. record n {
          clock = (Clock.after delay (arrival frm to msg) tag (some to) n.clock).1;
        })

    -- `_schedule`, with the latency drawn.
    unfoldable pub schedule : NodeId → NodeId → M → Text → Exec (SimNetwork A M R) (Unit {0})
    unfolding draw schedule_after
    schedule frm to msg tag = do
      faults ← gets (λ n. n.faults)
      delay ← draw (draws.between faults.latency.0 faults.latency.1)
      schedule_after frm to msg tag delay

    unfoldable pub send_unless : NodeId → NodeId → M → Bool → Exec (SimNetwork A M R) (Unit {0})
    unfolding drop_packet schedule draw write_record
    send_unless frm to msg true = drop_packet frm to msg
    send_unless frm to msg false = do
      schedule frm to msg net_deliver
      faults ← gets (λ n. n.faults)
      twice ← draw (draws.chance faults.duplicate_percent)
      when twice (do schedule frm to msg net_deliver_dup; write_record (net_duplicate frm to msg))

    unfoldable pub send : NodeId → NodeId → M → Exec (SimNetwork A M R) (Unit {0})
    unfolding send_unless draw
    send frm to msg = do
      known ← gets (λ n. contains to n.inboxes)
      when (not known) (raise value_error)
      faults ← gets (λ n. n.faults)
      lost ← draw (draws.chance faults.drop_percent)
      send_unless frm to msg lost

    -- `_release`, once the held packets are read.
    unfoldable pub release_all : NodeId → List (NodeId × M) → Exec (SimNetwork A M R) (Unit {0})
    unfolding write_record schedule_after
    release_all node_id [] = pure tt
    release_all node_id (p ∷ packets) = do
      modify (λ n. record n { held = insert node_id [] n.held })
      write_record (net_release node_id (length (p ∷ packets)))
      for_each (λ q. schedule_after q.0 node_id q.1 net_deliver_held 0) (p ∷ packets)

    unfoldable pub release : NodeId → Exec (SimNetwork A M R) (Unit {0})
    unfolding release_all
    release node_id = do
      packets ← gets (λ n. lookup node_id n.held)
      packets ← at_key packets
      release_all node_id packets

    -- What `set_state` does once the state is set.
    unfoldable pub after_change :
        NodeId → NodeState → NodeState → Exec (SimNetwork A M R) (Unit {0})
    unfolding release
    after_change node_id previous crashed = do
      packets ← gets (λ n. lookup node_id n.held)
      packets ← at_key packets
      modify (λ n. record n { held = insert node_id [] n.held })
    after_change node_id previous state = if is_hung previous then release node_id else pure tt

    unfoldable pub set_state : NodeId → NodeState → Exec (SimNetwork A M R) (Unit {0})
    unfolding after_change
    set_state node_id state = do
      previous ← gets (λ n. lookup node_id n.states)
      previous ← at_key previous
      modify (λ n. record n { states = insert node_id state n.states })
      after_change node_id previous state
