-- ===== src/Tests/Records.antt =====
-- Runs of the framing, the commands, the log and the persistence records.
use ground_hog.Prelude.{◌≡◌, ◌≢◌, refl, [], ◌∷◌, ◌++◌, ◌-◌, take, length, none, some, arith}
use ground_hog.Prelude.Outcome.{Outcome, ok, raised}
use ground_hog.Bytes.{Bytes, pack_uint, be_bytes}
use ground_hog.Crc.{crc32}
use ground_hog.Utf8.{utf8_encode}
use ground_hog.Codec.{encode_record, encode_records, decode_records}
use ground_hog.Codec.Scans.{image, scan_of}
use ground_hog.Codec.Torn.{fitting, decode-cut}
use ground_hog.Kv
use ground_hog.Kv.{Command, put, delete, encode_command, decode_command, KvStore, empty, apply, get}
use ground_hog.Kv.RoundTrip.{decode-encode_command}
use ground_hog.Kv.Laws.{apply_every, get-apply, replay-encode_commands}
use ground_hog.Log.{LogEntry, append, raft_log}
use ground_hog.Log.Contiguous.{IsContiguous, append-IsContiguous, raft_log-IsContiguous}
use ground_hog.Persist
use ground_hog.Persist.{Recovered, HardState}
use ground_hog.Persist.Replay.{Holds, save_state-Holds, append_entries-Holds, truncate_from-Holds}
use ground_hog.Tests.{Memory, memory, Anything, in_memory, flushed, memory-Contract}

abbrev bytes_of : Outcome Bytes → Bytes
bytes_of (ok b) = b
bytes_of (raised _) = []

abbrev payload : Bytes
payload = 7 ∷ 8 ∷ []

abbrev two_records : Bytes
two_records = bytes_of (encode_records (payload ∷ [] ∷ []))

encoded : encode_records (payload ∷ [] ∷ []) ≡ ok two_records
unfolding encode_records encode_record pack_uint crc32 be_bytes
encoded = refl

decode-cut_example :
    decode_records (two_records ++ take 9 two_records)
    ≡ scan_of
        ((payload ∷ [] ∷ []) ++ fitting 9 (payload ∷ [] ∷ []))
        (length (take 9 two_records) - length (image (fitting 9 (payload ∷ [] ∷ []))))
decode-cut_example =
    decode-cut (payload ∷ [] ∷ []) (payload ∷ [] ∷ []) 9 two_records two_records encoded encoded

abbrev set_k : Command
set_k = put (107 ∷ []) (233 ∷ [])

abbrev set_k_bytes : Bytes
set_k_bytes = bytes_of (encode_command set_k)

set_k-encoded : encode_command set_k ≡ ok set_k_bytes
unfolding encode_command utf8_encode pack_uint
set_k-encoded = refl

decode-encode_command_example : decode_command set_k_bytes ≡ ok set_k
decode-encode_command_example = decode-encode_command set_k set_k_bytes set_k-encoded

set_k-commands : Kv.Laws.encode_commands (set_k ∷ []) ≡ ok (set_k_bytes ∷ [])
unfolding encode_command utf8_encode pack_uint
set_k-commands = refl

replay-encode_commands_example : Kv.replay (set_k_bytes ∷ []) ≡ ok (apply set_k empty)
replay-encode_commands_example =
    replay-encode_commands (set_k ∷ []) (set_k_bytes ∷ []) set_k-commands

abbrev first : LogEntry
first = record { term = 1; index = 1; command = set_k }

abbrev second : LogEntry
second = record { term = 2; index = 2; command = delete (107 ∷ []) }

append-IsContiguous_example : IsContiguous (append (second ∷ []) (first ∷ [])).1
append-IsContiguous_example = append-IsContiguous (second ∷ []) (first ∷ []) (refl, tt)

raft_log-IsContiguous_example : IsContiguous (first ∷ second ∷ [])
unfolding raft_log
raft_log-IsContiguous_example =
    raft_log-IsContiguous (first ∷ second ∷ []) (first ∷ second ∷ []) refl

-- A list of records with one entry in it.
abbrev stored : Memory
stored = (Persist.append_entries memory (first ∷ []) ([], [])).1

abbrev nothing : Recovered
nothing = record { state = record { current_term = 0; voted_for = none }; entries = [] }

abbrev one_entry : Recovered
one_entry = record nothing { entries = first ∷ [] }

append_ran : Persist.append_entries memory (first ∷ []) ([], []) ≡ (ok tt, stored)
unfolding Persist.append_entries Persist.encode_entries Persist.encode_entry_record pack_uint
    encode_command utf8_encode
append_ran = refl

append_entries-Holds_example :
    Holds memory Anything in_memory flushed memory-Contract stored one_entry
unfolding Persist.replay Persist.replay_from
append_entries-Holds_example =
    append_entries-Holds memory Anything in_memory flushed memory-Contract (first ∷ []) nothing
      ([], []) stored (tt, refl) append_ran

one_entry-Holds : Holds memory Anything in_memory flushed memory-Contract stored one_entry
unfolding Persist.replay Persist.replay_from
one_entry-Holds =
    append_entries-Holds memory Anything in_memory flushed memory-Contract (first ∷ []) nothing
      ([], []) stored (tt, refl) append_ran

abbrev cut : Memory
cut = (Persist.truncate_from memory 1 stored).1

truncate_ran : Persist.truncate_from memory 1 stored ≡ (ok tt, cut)
unfolding Persist.truncate_from Persist.encode_truncate_record pack_uint
truncate_ran = refl

truncate_from-Holds_example : Holds memory Anything in_memory flushed memory-Contract cut nothing
truncate_from-Holds_example =
    truncate_from-Holds memory Anything in_memory flushed memory-Contract 1 one_entry stored cut
      (omega arith) one_entry-Holds truncate_ran

abbrev voted : HardState
voted = record { current_term = 3; voted_for = some 2 }

abbrev saved : Memory
saved = (Persist.save_state memory voted stored).1

save_ran : Persist.save_state memory voted stored ≡ (ok tt, saved)
unfolding Persist.save_state Persist.encode_state_record pack_uint
save_ran = refl

two_is_real : voted.voted_for ≢ some 0
two_is_real e = cc

save_state-Holds_example :
    Holds memory Anything in_memory flushed memory-Contract saved
      (record one_entry { state = voted })
save_state-Holds_example =
    save_state-Holds memory Anything in_memory flushed memory-Contract voted one_entry stored saved
      two_is_real one_entry-Holds save_ran
