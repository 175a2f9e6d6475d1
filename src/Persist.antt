-- ===== src/Persist.antt =====
-- groundhog/raft/persist.py: what a Raft node writes down. One log of records, each with the
-- header ">BQQ": a kind and two unsigned 64-bit fields.
pub mod Replay
use ground_hog.Prelude.{
  ℕ, ◌+◌, ◌-◌, List, [], ◌∷◌, ◌++◌, Option, none, some, leb, ◌==◌, if◌then◌else◌, length, take,
  drop,
}
use ground_hog.Prelude.Outcome.{Outcome, ok, raised, value_error, struct_error, ensure, ◌>>=◌, ◌>>◌}
use ground_hog.Prelude.Exec
use ground_hog.Prelude.Exec.{Exec}
use ground_hog.Bytes.{Bytes, be_value, pack_uint}
use ground_hog.Kv.{encode_command, decode_command}
use ground_hog.Log.{LogEntry, RaftLog, raft_log}
use ground_hog.Storage.{Storage}
use ground_hog.Types.{NodeId, Term, Index}

pub record HardState : Type 0 where
  pub current_term : Term
  pub voted_for : Option NodeId

abbrev pub initial_state : HardState
initial_state = record { current_term = 0; voted_for = none }

-- _HEADER.pack
pack_header : ℕ → ℕ → ℕ → Outcome Bytes
pack_header kind first second = do
  a ← pack_uint 1 kind
  b ← pack_uint 8 first
  c ← pack_uint 8 second
  ok (a ++ (b ++ c))

-- 0 is no node id, so it stands for no vote.
abbrev vote_field : Option NodeId → ℕ
vote_field none = 0
vote_field (some n) = n

abbrev vote_of : ℕ → Option NodeId
vote_of n = if n == 0 then none else some n

unfoldable pub encode_state_record : HardState → Outcome Bytes
unfolding pack_header
encode_state_record s = pack_header 1 s.current_term (vote_field s.voted_for)

unfoldable pub encode_entry_record : LogEntry → Outcome Bytes
unfolding pack_header
encode_entry_record e = do
  header ← pack_header 2 e.term e.index
  command ← encode_command e.command
  ok (header ++ command)

unfoldable pub encode_truncate_record : Index → Outcome Bytes
unfolding pack_header
encode_truncate_record index = pack_header 3 0 index

pub record Recovered : Type 0 where
  pub state : HardState
  pub entries : List LogEntry

-- `del entries[second - 1 :]`: for 0 Python cuts from the last entry.
abbrev cut : ℕ → List LogEntry → List LogEntry
cut second entries =
    if second == 0 then take (length entries - 1) entries else take (second - 1) entries

-- One record of the loop.
unfoldable pub replay_record : Recovered → Bytes → Outcome Recovered
replay_record r bytes = do
  ensure (leb 17 (length bytes)) struct_error
  let kind = be_value (take 1 bytes)
  let first = be_value (take 8 (drop 1 bytes))
  let second = be_value (take 8 (drop 9 bytes))
  let payload = drop 17 bytes
  let state : HardState = record { current_term = first; voted_for = vote_of second }
  if kind == 1
      then ok (record r { state = state })
      else if kind == 2
      then (do
        command ← decode_command payload
        let entry : LogEntry = record { term = first; index = second; command = command }
        ok (record r { entries = r.entries ++ entry ∷ [] }))
      else if kind == 3
      then ok (record r { entries = cut second r.entries })
      else raised value_error

unfoldable pub replay_from : Recovered → List Bytes → Outcome Recovered
replay_from r [] = ok r
replay_from r (b ∷ bs) = do r' ← replay_record r b; replay_from r' bs

abbrev pub nothing_recovered : Recovered
nothing_recovered = record { state = initial_state; entries = [] }

unfoldable pub replay : List Bytes → Outcome Recovered
replay = replay_from nothing_recovered

unfoldable pub encode_entries : List LogEntry → Outcome (List Bytes)
encode_entries [] = ok []
encode_entries (e ∷ es) = do r ← encode_entry_record e; rs ← encode_entries es; ok (r ∷ rs)

-- `RaftStorage`: nothing here decides when to sync.
module _ {S : Type 0} (store : Storage S) where
  append_encoded : Outcome (List Bytes) → Exec S (Unit {0})
  unfolding Exec.raise
  append_encoded (ok rs) = store.append rs
  append_encoded (raised e) = Exec.raise e

  unfoldable pub save_state : HardState → Exec S (Unit {0})
  unfolding append_encoded
  save_state state = append_encoded (encode_state_record state >>= λ r. ok (r ∷ []))

  unfoldable pub append_entries : List LogEntry → Exec S (Unit {0})
  unfolding append_encoded Exec.pure
  append_entries [] = Exec.pure tt
  append_entries (e ∷ es) = append_encoded (encode_entries (e ∷ es))

  unfoldable pub truncate_from : Index → Exec S (Unit {0})
  unfolding append_encoded
  truncate_from index = append_encoded (encode_truncate_record index >>= λ r. ok (r ∷ []))

  -- What a restart reads: the hard state, and the log, which its constructor checks.
  abbrev recovered_log : Recovered → Outcome (HardState × RaftLog)
  recovered_log r = raft_log r.entries >>= λ log. ok (r.state, log)

  unfoldable pub recover : Exec S (HardState × RaftLog)
  unfolding Exec.◌>>=◌ Exec.lift
  recover = Exec.◌>>=◌ store.read_all (λ rs. Exec.lift (replay rs >>= recovered_log))
