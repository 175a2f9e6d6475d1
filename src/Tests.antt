-- ===== src/Tests.antt =====
-- Concrete runs: the properties applied to small inputs, over a storage that keeps its records in a
-- list and over the simulated disk.
mod Nodes
mod Records
mod Disks
mod Queues
mod Draws
mod Watched
mod Nets
mod Runs
mod Schedules
mod Files
mod Writes
use ground_hog.Prelude.{ℕ, ◌≡◌, refl, sym, ap, ◌∙◌, List, [], ◌∷◌, ◌++◌, false}
use ground_hog.Prelude.Outcome.{Outcome, ok}
use ground_hog.Bytes.{Bytes}
use ground_hog.Messages.{RequestVote}
use ground_hog.Storage.{Storage, Contract}
use ground_hog.Node.State.{RaftNode, Services, init}

-- Records in a list, and what the last sync left of them.
abbrev pub Memory : Type 0
Memory = List Bytes × List Bytes

abbrev pub memory : Storage Memory
memory = record {
  append = λ rs m. (ok tt, (m.0 ++ rs, m.1));
  sync = λ m. (ok tt, (m.0, m.0));
  read_all = λ m. (ok m.0, m);
}

abbrev pub Anything : Memory → Type 0
Anything m = Unit {0}

abbrev pub in_memory : Memory → List Bytes
in_memory m = m.0

abbrev pub flushed : Memory → List Bytes
flushed m = m.1

pub memory-Contract : Contract memory Anything in_memory flushed
memory-Contract = record {
  append_sound = λ rs s s' h e. tt;
  append_writes = λ rs s s' h e. sym (ap (λ p. p.1.0) e);
  sync_sound = λ s s' h e. tt;
  sync_keeps = λ s s' h e. sym (ap (λ p. p.1.0) e);
  sync_durable = λ s s' h e. sym (ap (λ p. p.1.1) e) ∙ ap (λ p. p.1.0) e;
  read_all_log = λ s s' rs h e. let same : ok s.0 ≡ ok rs = ap (λ p. p.0) e in cc;
}

-- The source of randomness always answers with its lower bound.
abbrev pub services : Services Memory (Unit {0})
services = record { store = memory; between = λ low high r. (ok low, r) }

abbrev pub node : RaftNode Memory (Unit {0})
node = init 1 (2 ∷ 3 ∷ []) ([], []) tt false

abbrev pub ask : RequestVote
ask = record { term = 1; candidate_id = 2; last_log_index = 0; last_log_term = 0 }
