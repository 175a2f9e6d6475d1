-- ===== src/Log.antt =====
-- groundhog/log.py: the replicated log, addressed from 1. Index 0 is the sentinel before it.
pub mod Contiguous
use ground_hog.Prelude.{
  ℕ, ◌+◌, ◌-◌, Bool, ◌&&◌, List, [], ◌∷◌, ◌++◌, Option, none, some, leb, ltb, ◌==◌, if◌then◌else◌,
  length, get_elem?, take, drop, last?,
}
use ground_hog.Prelude.Outcome.{Outcome, ok, raised, index_error, value_error}
use ground_hog.Kv.{Command}
use ground_hog.Types.{Term, Index}

-- The index before the first entry: every log matches there, at term 0.
abbrev pub sentinel_index : Index
sentinel_index = 0

abbrev pub sentinel_term : Term
sentinel_term = 0

pub record LogEntry : Type 0 where
  pub term : Term
  pub index : Index
  pub command : Command

-- `RaftLog._entries`
abbrev pub RaftLog : Type 0
RaftLog = List LogEntry

unfoldable pub last_index : RaftLog → Index
last_index log = elim (last? log) [ none ↦ sentinel_index | some e ↦ e.index ]

unfoldable pub last_term : RaftLog → Term
last_term log = elim (last? log) [ none ↦ sentinel_term | some e ↦ e.term ]

unfoldable pub has_entry : RaftLog → Index → Bool
has_entry log index = leb sentinel_index index && leb index (last_index log)

-- Python's own `_entries[index - 1]` raises past the end of the list.
abbrev at_position : Option LogEntry → Outcome LogEntry
at_position none = raised index_error
at_position (some e) = ok e

unfoldable pub entry_at : RaftLog → Index → Outcome LogEntry
entry_at log index =
    if leb 1 index && leb index (last_index log)
    then at_position (get_elem? log (index - 1))
    else raised index_error

abbrev term_of : Outcome LogEntry → Outcome Term
term_of (ok e) = ok e.term
term_of (raised x) = raised x

unfoldable pub term_at : RaftLog → Index → Outcome Term
term_at log index =
    if index == sentinel_index then ok sentinel_term else term_of (entry_at log index)

unfoldable pub slice_from : RaftLog → Index → Outcome (List LogEntry)
slice_from log index =
    if leb index sentinel_index then raised index_error else ok (drop (index - 1) log)

-- `RaftLog.append`: what was appended before an entry that does not follow stays appended.
unfoldable pub append : List LogEntry → RaftLog → Outcome (Unit {0}) × RaftLog
append [] log = (ok tt, log)
append (e ∷ es) log =
    let rest = append es (log ++ e ∷ []) in
    if e.index == last_index log + 1 then rest else (raised value_error, log)

unfoldable pub truncate_from : Index → RaftLog → Outcome RaftLog
truncate_from index log =
    if leb index sentinel_index then raised index_error else ok (take (index - 1) log)

-- `RaftLog.create`: the next entry, not appended.
unfoldable pub create : Term → Command → RaftLog → LogEntry
create term command log = record { term = term; index = last_index log + 1; command = command }

-- `_check_contiguous`, from a position on.
check_contiguous : ℕ → List LogEntry → Outcome (Unit {0})
check_contiguous position [] = ok tt
check_contiguous position (e ∷ es) =
    let rest = check_contiguous (position + 1) es in
    if e.index == position then rest else raised value_error

abbrev keep_checked : List LogEntry → Outcome (Unit {0}) → Outcome RaftLog
keep_checked entries (ok _) = ok entries
keep_checked entries (raised x) = raised x

-- `RaftLog(entries)`
unfoldable pub raft_log : List LogEntry → Outcome RaftLog
unfolding check_contiguous
raft_log entries = keep_checked entries (check_contiguous 1 entries)
