-- ===== src/Lib.antt =====
-- A model of groundhog, a Raft key-value store that is run inside a deterministic simulator.
--
-- The program has a core that decides and a world that answers. The core is one Raft node
-- (groundhog/raft/node.py) over its log (groundhog/log.py), its state machine (groundhog/kv.py) and its
-- write-ahead records (groundhog/raft/persist.py, framed by groundhog/codec.py). It calls a clock, a
-- network, a trace, a random source and a storage. The simulated disk (groundhog/sim/disk.py) is one
-- storage. The simulator (groundhog/sim/world.py) runs the nodes over one event queue, a network that loses
-- and delays packets (groundhog/sim/net.py) and a drawn timeline of faults (groundhog/sim/faults.py), and
-- after every event the checkers (groundhog/invariants) look at all the nodes.
--
-- How the files correspond to the code:
--  * Prelude: shared names; lists and numbers, dictionaries, results with Python's exceptions (Outcome),
--    methods as actions on a state (Exec), what every run of an action does to its state (Steps), loops
--    that may return early (Watch), and `sorted` (Sort).
--  * Bytes, Utf8, Crc: big-endian packing (`struct`), `str.encode`, and `zlib.crc32`, as the code uses
--    them.
--  * Codec: groundhog/codec.py. Frames, Scans and Torn prove what the scan finds.
--  * Kv: groundhog/kv.py, with RoundTrip and Laws.
--  * Types, Messages: groundhog/types.py and groundhog/messages.py. `ClientReply.ok` is `accepted` here.
--  * Log: groundhog/log.py, with its invariant in Log/Contiguous.
--  * Storage: the protocol of groundhog/storage.py and its contract, as an interface.
--  * FileStorage: `class FileStorage` of groundhog/storage.py, over a file given as a parameter;
--    FileStorage/Sound proves that it keeps the contract.
--  * Persist: groundhog/raft/persist.py, with Persist/Replay over any storage that keeps the contract.
--  * Node: groundhog/raft/node.py. State holds the fields of `RaftNode`, Plumbing its calls of the
--    world, Roles the transitions, replication and the apply rule, Handlers the message handlers and
--    the election timeout, Lifecycle start, crash, restart, dispatch and the guard. Frame and Quiet say
--    what each method leaves alone; VoteOrder, Order, Votes, Candidacy, Commit, Applied and Durable
--    prove the rules.
--  * Disk: groundhog/sim/disk.py, with Disk/Recovery and Disk/Sound.
--  * Queue, Clock: groundhog/sim/event.py and groundhog/clock.py. Queue/Order proves the order,
--    and what `pop` and `cancel` leave.
--  * Rng: groundhog/sim/rng.py, over the generator of Python's `random`, with Rng/Bounds and
--    Rng/Rejection.
--  * Invariants: groundhog/invariants. View holds what a checker looks at and what it may say (base.py
--    and history.py); Election, Matching, AppendOnly, Completeness, Machine and Progress are the six
--    checkers of safety.py, each with what its silence means; Registry is the class `Invariants` with
--    `all_checkers`, Observed and Watching say what a call and a run of it have seen; Divergence
--    compares the stores.
--  * Net: groundhog/sim/net.py over the clock. Arrivals and Waking prove what becomes of a packet that
--    arrives, of one that waits for a node that crashes, and of one that waits for a node that wakes.
--  * Simulator: groundhog/sim/world.py, the loop over the event queue, with Simulator/Traces and
--    Simulator/Chronology. What an event does, and the hooks after it, are parameters.
--  * Faults: groundhog/sim/faults.py. Episodes and Sides prove what the drawn timeline looks like.
--  * Naive: groundhog/naive/replicator.py and client.py, the baseline without a quorum. Replayed is about
--    a write that the primary said yes to, Promises about the list of lost writes.
--  * Tests: concrete runs.
--
-- A method is an action: a function from the state to a result and the state after it, so that what was
-- written before an exception stays written. The node's storage and random source answer, so their
-- states are fields of the node and their methods parameters; the clock, the network and the trace only
-- take calls, which are kept in order as effects.
--
-- Numbers are natural numbers, also where Python's could be negative: the guards of the event queue and
-- the clock against a negative tick or delay have nothing to refuse here. Every fixed width is checked
-- where the source packs it. Loops: the scan of a log image has the length of the image as fuel, and
-- every round takes at least eight bytes; the apply rule has the distance to the commit index, which
-- every round shortens by one; the rejection loop of the random source has a number of tries, and
-- returns if one of them is accepted; the loops that draw the episodes have a number of rounds, and end
-- within the ticks to the horizon; the simulator's loop need not end, and says when its fuel is used
-- up; the other loops go over lists, or down from the last index.
--
-- The memo of the scan in the simulated disk is left out, since it holds nothing that the image does not
-- determine. Methods that only format text are left out. Not modelled: the worlds
-- (raft/world.py and naive/world.py), which wire the parts together; the timer of the naive client; and
-- the command line, the demonstration and the trace's JSON.
pub mod Prelude
pub mod Bytes
pub mod Utf8
pub mod Kv
pub mod Crc
pub mod Codec
pub mod Types
pub mod Log
pub mod Messages
pub mod Storage
pub mod FileStorage
pub mod Persist
pub mod Node
pub mod Disk
pub mod Invariants
pub mod Net
pub mod Faults
pub mod Naive
pub mod Queue
pub mod Clock
pub mod Simulator
pub mod Rng
pub mod Tests
