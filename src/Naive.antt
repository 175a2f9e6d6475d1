-- ===== src/Naive.antt =====
-- groundhog/naive: the replicator that tells the client yes before anything is safe, and what the
-- client was promised. The network and the trace only take calls, which are kept in order; the disk
-- answers, so its methods are parameters. The world that wires three of them together is not modelled.
pub mod Promises
pub mod Replayed
use ground_hog.Prelude.{
  ℕ, ◌+◌, List, [], ◌∷◌, ◌++◌, Option, none, some, Bool, true, false, ◌&&◌, ◌==◌, leb, not,
  if◌then◌else◌, map, length,
}
use ground_hog.Prelude.Dict.{Dict, Text, text_key, nat_eq, lookup, insert}
use ground_hog.Prelude.Outcome.{Outcome, ok, raised, disk_error}
use ground_hog.Prelude.Exec.{Exec, pure, raise, lift, gets, modify, when, for_each, ◌>>=◌, ◌>>◌}
use ground_hog.Prelude.Sort.{sorted_items, sorted_texts}
use ground_hog.Kv
use ground_hog.Kv.{Command, KvStore, apply, encode_command, replay, get}
use ground_hog.Storage.{Storage}
use ground_hog.Invariants.View.{value_of}
use ground_hog.Invariants.Divergence.{value_eq}
use ground_hog.Types.{NodeId}

-- SYNC_EVERY
abbrev pub sync_every : ℕ
sync_every = 4

-- The records of the trace, without the tick and the node.
pub data NaiveRecord : Type 0 where
  write_acked : Command → NaiveRecord
  disk_failed : NaiveRecord
  crashed : NaiveRecord
  restarted : ℕ → NaiveRecord

-- The methods of the disk that the replicator calls.
pub record NaiveDisk (S : Type 0) : Type 0 where
  pub store : Storage S
  pub crash : Exec S (Unit {0})
  pub restart : Exec S (Unit {0})

pub record NaiveReplicator (S : Type 0) : Type 0 where
  pub node_id : NodeId
  pub primary_id : NodeId
  pub peers : List NodeId
  pub storage : S
  pub kv : KvStore
  pub running : Bool
  pub unsynced : ℕ
  -- the `Replicate` messages that were sent, and the trace
  pub sent : List (NodeId × Command)
  pub trace : List NaiveRecord

module _ {S : Type 0} where
  -- `NaiveReplicator(...)`
  abbrev pub new_replicator : NodeId → NodeId → List NodeId → S → NaiveReplicator S
  new_replicator node_id primary_id peers storage = record {
    node_id = node_id;
    primary_id = primary_id;
    peers = peers;
    storage = storage;
    kv = Kv.empty;
    running = true;
    unsynced = 0;
    sent = [];
    trace = [];
  }

  unfoldable pub note : NaiveRecord → Exec (NaiveReplicator S) (Unit {0})
  note r = modify (λ n. record n { trace = n.trace ++ r ∷ [] })

  unfoldable pub on_disk : {A : Type 0} → Exec S A → Exec (NaiveReplicator S) A
  on_disk m n = let r = m n.storage in (r.0, record n { storage = r.1 })

  -- `try: m`, whose exception is looked at.
  unfoldable pub caught :
      {A : Type 0} → Exec (NaiveReplicator S) A → Exec (NaiveReplicator S) (Outcome A)
  caught m n = let r = m n in (ok r.0, r.1)

  module _ (disk : NaiveDisk S) where
    unfoldable pub crash : Exec (NaiveReplicator S) (Unit {0})
    unfolding note on_disk
    crash = do
      up ← gets (λ n. n.running)
      when up (do
        modify (λ n. record n { running = false; kv = Kv.empty; unsynced = 0 })
        on_disk disk.crash
        note crashed)

    unfoldable pub restart : Exec (NaiveReplicator S) (Unit {0})
    unfolding note on_disk
    restart = do
      on_disk disk.restart
      records ← on_disk disk.store.read_all
      kv ← lift (replay records)
      modify (λ n. record n { kv = kv; unsynced = 0; running = true })
      note (restarted (length kv.entries))

    unfoldable pub sync_some : Bool → Exec (NaiveReplicator S) (Unit {0})
    unfolding on_disk
    sync_some due = when due (do on_disk disk.store.sync; modify (λ n. record n { unsynced = 0 }))

    -- `_write`, once the append has returned or raised.
    unfoldable pub after_append : Command → Outcome (Unit {0}) → Exec (NaiveReplicator S) Bool
    unfolding crash sync_some note
    after_append command (ok u) = do
      modify (λ n. record n { kv = apply command n.kv; unsynced = n.unsynced + 1 })
      unsynced ← gets (λ n. n.unsynced)
      sync_some (leb sync_every unsynced)
      pure true
    after_append command (raised disk_error) = do note disk_failed; crash; pure false
    after_append command (raised e) = raise e

    -- `_write`
    unfoldable pub write : Command → Exec (NaiveReplicator S) Bool
    unfolding after_append on_disk caught
    write command = do
      bytes ← lift (encode_command command)
      appended ← caught (on_disk (disk.store.append (bytes ∷ [])))
      after_append command appended

    unfoldable pub send_all : Command → Exec (NaiveReplicator S) (Unit {0})
    send_all command = do
      peers ← gets (λ n. n.peers)
      for_each (λ peer. modify (λ n. record n { sent = n.sent ++ (peer, command) ∷ [] })) peers

    unfoldable pub answer : Command → Bool → Exec (NaiveReplicator S) Bool
    unfolding send_all note
    answer command false = pure false
    answer command true = do send_all command; note (write_acked command); pure true

    unfoldable pub serve : Command → Bool → Exec (NaiveReplicator S) Bool
    unfolding write answer
    serve command false = pure false
    serve command true = do done ← write command; answer command done

    unfoldable pub on_client_request : Command → Exec (NaiveReplicator S) Bool
    unfolding serve
    on_client_request command = do
      n ← gets (λ n. n)
      serve command (n.node_id == n.primary_id && n.running)

    -- `on_message`: the result of the write is dropped
    unfoldable pub on_message : Command → Exec (NaiveReplicator S) (Unit {0})
    unfolding write
    on_message command = do up ← gets (λ n. n.running); when up (do write command; pure tt)

-- groundhog/naive/client.py: what the client was promised.
pub record LostWrite : Type 0 where
  pub node : NodeId
  pub key : Text
  pub promised : Option Text
  pub found : Option Text

-- The loop of `expected_state`.
promise : Dict Text (Option Text) → List Command → Dict Text (Option Text)
promise state [] = state
promise state (c ∷ cs) = promise (insert c.key (value_of c) state) cs

unfoldable pub expected_state : List Command → Dict Text (Option Text)
unfolding promise
expected_state = promise []

-- `expected[key]`, for a key of it
abbrev pub promised_value : Option (Option Text) → Option Text
promised_value none = none
promised_value (some v) = v

-- The inner loop of `lost_writes`, and the outer.
unfoldable pub lost_on : NodeId → KvStore → Dict Text (Option Text) → List Text → List LostWrite
lost_on node store expected [] = []
lost_on node store expected (key ∷ keys) =
    let rest = lost_on node store expected keys in
    let promised = promised_value (lookup key expected) in
    if value_eq (get store key) promised
    then rest
    else record { node = node; key = key; promised = promised; found = get store key } ∷ rest

unfoldable pub lost_over :
    Dict Text (Option Text) → List Text → List (NodeId × KvStore) → List LostWrite
unfolding lost_on
lost_over expected keys [] = []
lost_over expected keys (p ∷ stores) =
    lost_on p.0 p.1 expected keys ++ lost_over expected keys stores

unfoldable pub lost_writes : List Command → Dict NodeId KvStore → List LostWrite
unfolding lost_over
lost_writes acked stores =
    let expected = expected_state acked in
    lost_over expected (sorted_texts (map (λ p. p.0) expected)) (sorted_items stores)
