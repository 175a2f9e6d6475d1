-- ===== src/Tests/Writes.antt =====
-- A write at a replicator whose disk is a list in memory, and what the client was promised.
use ground_hog.Prelude.{◌≡◌, refl, List, [], ◌∷◌, none, some, true}
use mathlib.Core.List.Memᴰ
use ground_hog.Prelude.Dict.{Dict, text_key, lookup}
use ground_hog.Prelude.Outcome.{ok}
use ground_hog.Prelude.Exec.{◌>>=◌, pure, lift, gets, modify, when, for_each}
use ground_hog.Prelude.Sort.{sorted_items, sorted_texts}
use ground_hog.Utf8.{utf8_encode}
use ground_hog.Bytes.{pack_uint}
use ground_hog.Kv
use ground_hog.Kv.{Command, KvStore, put, delete, apply, get, encode_command, replay}
use ground_hog.Naive.{
  NaiveDisk, NaiveReplicator, new_replicator, on_client_request, expected_state, lost_writes,
  lost_over, lost_on,
}
use ground_hog.Naive.Replayed.{Replays, Served, on_client_request-Served}
use ground_hog.Types.{NodeId}
use ground_hog.Naive.Promises.{lost_writes-none}
use ground_hog.Tests.{Memory, memory, Anything, in_memory, flushed, memory-Contract}

abbrev memory_disk : NaiveDisk Memory
memory_disk = record { store = memory; crash = λ m. (ok tt, (m.1, m.1)); restart = λ m. (ok tt, m) }

abbrev primary : NaiveReplicator Memory
primary = new_replicator 1 1 (2 ∷ 3 ∷ []) ([], [])

abbrev set_a : Command
set_a = put (97 ∷ []) (49 ∷ [])

abbrev served : NaiveReplicator Memory
served = (on_client_request memory_disk set_a primary).1

said_yes : on_client_request memory_disk set_a primary ≡ (ok true, served)
unfolding on_client_request ◌>>=◌ gets lift encode_command utf8_encode pack_uint modify when pure
    for_each
said_yes = refl

primary-Replays : Replays memory_disk Anything in_memory flushed memory-Contract primary
unfolding replay
primary-Replays = record { sound = tt; replayed = refl }

on_client_request-Served_example :
    Served memory_disk Anything in_memory flushed memory-Contract set_a primary served
on_client_request-Served_example =
    on_client_request-Served memory_disk Anything in_memory flushed memory-Contract set_a primary
      served primary-Replays said_yes

-- The client put a key and deleted another.
abbrev promises : List Command
promises = set_a ∷ put (98 ∷ []) (50 ∷ []) ∷ delete (98 ∷ []) ∷ []

abbrev kept : KvStore
kept = apply set_a Kv.empty

abbrev copies : Dict NodeId KvStore
copies = (1, kept) ∷ (2, kept) ∷ []

none_lost : lost_writes promises copies ≡ []
unfolding lost_writes lost_over lost_on expected_state sorted_items sorted_texts get apply
none_lost = refl

absent_promised : lookup (98 ∷ []) (expected_state promises) ≡ some none
unfolding expected_state
absent_promised = refl

lost_writes-none_example : get kept (98 ∷ []) ≡ none
lost_writes-none_example =
    lost_writes-none promises copies none_lost 2 kept (Memᴰ.tail (Memᴰ.head refl)) (98 ∷ []) none
      absent_promised
