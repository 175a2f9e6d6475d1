-- ===== src/Storage.antt =====
-- The `Storage` protocol of groundhog/storage.py: what a node may assume of durability. The
-- contract is the one that the module's docstring states.
use ground_hog.Prelude.{List, ◌++◌, ◌≡◌}
use ground_hog.Prelude.Outcome.{ok}
use ground_hog.Prelude.Exec.{Exec}
use ground_hog.Bytes.{Bytes}

-- The methods that the Raft node calls, over the state of an implementation.
pub record Storage (S : Type 0) : Type 0 where
  pub append : List Bytes → Exec S (Unit {0})
  pub sync : Exec S (Unit {0})
  pub read_all : Exec S (List Bytes)

-- "Everything that was in the log when `sync()` returned is still there after a crash. Everything
-- appended since may or may not be." `written` is the log, `durable` what a crash keeps at least;
-- `IsSound` is the implementation's own invariant, which its methods keep where they return.
pub record Contract {S : Type 0} (store : Storage S) (IsSound : S → Type 0)
    (written durable : S → List Bytes) : Type 0 where
  pub append_sound :
      (rs : List Bytes) (s s' : S) → IsSound s → store.append rs s ≡ (ok tt, s') → IsSound s'
  pub append_writes :
      (rs : List Bytes) (s s' : S)
      → IsSound s
      → store.append rs s ≡ (ok tt, s')
      → written s' ≡ written s ++ rs
  pub sync_sound : (s s' : S) → IsSound s → store.sync s ≡ (ok tt, s') → IsSound s'
  pub sync_keeps : (s s' : S) → IsSound s → store.sync s ≡ (ok tt, s') → written s' ≡ written s
  pub sync_durable : (s s' : S) → IsSound s → store.sync s ≡ (ok tt, s') → durable s' ≡ written s'
  pub read_all_log :
      (s s' : S) (rs : List Bytes) → IsSound s → store.read_all s ≡ (ok rs, s') → rs ≡ written s
