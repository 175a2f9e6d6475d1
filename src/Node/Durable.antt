-- ===== src/Node/Durable.antt =====
-- Durability of the node over any storage that keeps its contract. Between two handlers everything
-- that the node has promised (its term, its vote, its log) is what a replay of the synced records
-- gives back, so that nothing which a reply depends on is only in memory.
pub mod Votes
pub mod Appends
pub mod Handled
pub mod Restart
use ground_hog.Prelude.{
  if◌then◌else◌, ℕ, ◌+◌, ◌≡◌, ◌≢◌, refl, sym, ap, ◌∙◌, List, [], ◌∷◌, ◌++◌, Option, none, some,
  Bool, true, false, arith,
}
use mathlib.Core.Path.{subst}
use ground_hog.Prelude.Outcome.{Outcome, ok, raised}
use ground_hog.Prelude.Exec.{Exec, modify, gets, when, ◌>>=◌}
use ground_hog.Prelude.Steps.{
  Preorder, Steps, Steps-pure, Steps-modify, Steps-weaken, run-rel, bind-ok_elim, step_rules,
}
use ground_hog.Bytes.{Bytes}
use ground_hog.Log.{LogEntry, RaftLog}
use ground_hog.Log.Contiguous.{IsContiguous}
use ground_hog.Messages.{RequestVote, RequestVoteReply}
use ground_hog.Persist.{HardState, Recovered, replay, save_state}
use ground_hog.Persist.Replay.{Holds, save_state-Holds, append_entries-Holds, truncate_from-Holds}
use ground_hog.Storage.{Storage, Contract}
use ground_hog.Types.{NodeId, Term, Index}
use ground_hog.Node.State.{RaftNode, Services, Action}
use ground_hog.Node.Plumbing.{persist, sync, on_storage}
use ground_hog.Node.Frame.{kept_disk, send-kept, broadcast-kept}
use ground_hog.Node.Quiet.{Promise, promise, quiet, of_kept_disk}

-- A call of storage that returned.
pub on_storage-ok :
    {S R A : Type 0} (m : Exec S A) (n t : RaftNode S R) {a : A}
    → on_storage m n ≡ (ok a, t)
    → (m n.storage ≡ (ok a, t.storage)) × (t ≡ record n { storage = t.storage })
unfolding on_storage
on_storage-ok m n t e = (
  ap (λ p. (p.0, p.1.storage)) e,
  sym (ap (λ p. p.1) e) ∙ ap (λ p. record n { storage = p.1.storage }) e,
)

module _ {S R : Type 0} (env : Services S R) (IsSound : S → Type 0)
    (written durable : S → List Bytes) (contract : Contract env.store IsSound written durable) where
  open contract use {sync_sound, sync_keeps, sync_durable}

  -- The log on the disk, synced or not, is the node's; the hard state on the disk may be older.
  pub record LogHeld (p : Promise S) : Type 0 where
    pub sound : IsSound p.storage
    pub named : p.node_id ≢ 0
    pub real : p.voted_for ≢ some 0
    pub contiguous : IsContiguous p.log
    pub state : HardState
    pub replays : replay (written p.storage) ≡ ok (record { state = state; entries = p.log })

  -- The hard state on the disk is the node's too.
  pub record Saved (p : Promise S) : Type 0 where
    pub sound : IsSound p.storage
    pub named : p.node_id ≢ 0
    pub real : p.voted_for ≢ some 0
    pub contiguous : IsContiguous p.log
    pub replays :
        replay (written p.storage)
        ≡ ok (record {
          state = record { current_term = p.current_term; voted_for = p.voted_for };
          entries = p.log;
        })

  -- And all of it survives a crash.
  pub record Durable (p : Promise S) : Type 0 where
    pub saved : Saved p
    pub synced : durable p.storage ≡ written p.storage

  pub Saved-LogHeld : {p : Promise S} → Saved p → LogHeld p
  Saved-LogHeld {p} h = record {
    sound = h.sound;
    named = h.named;
    real = h.real;
    contiguous = h.contiguous;
    state = record { current_term = p.current_term; voted_for = p.voted_for };
    replays = h.replays;
  }

  -- `persist` writes the hard state behind everything that was written before.
  pub persist-Saved :
      (n t : RaftNode S R) → LogHeld (promise n) → persist env n ≡ (ok tt, t) → Saved (promise t)
  unfolding persist gets ◌>>=◌
  persist-Saved n t h e =
      let hard : HardState = record { current_term = n.current_term; voted_for = n.voted_for } in
      let (ran, same) = on_storage-ok (save_state env.store hard) n t e in
      let (sound, replays) =
        save_state-Holds env.store IsSound written durable contract hard
          (record { state = h.state; entries = n.log }) n.storage t.storage h.real
          (h.sound, h.replays) ran in
      subst Saved (sym (ap promise same)) (record {
        sound = sound;
        named = h.named;
        real = h.real;
        contiguous = h.contiguous;
        replays = replays;
      })

  -- `sync` makes it durable.
  pub sync-Durable :
      (n t : RaftNode S R) → Saved (promise n) → sync env n ≡ (ok tt, t) → Durable (promise t)
  unfolding sync
  sync-Durable n t h e =
      let (ran, same) = on_storage-ok env.store.sync n t e in
      subst Durable (sym (ap promise same)) (record {
        saved = record {
          sound = sync_sound n.storage t.storage h.sound ran;
          named = h.named;
          real = h.real;
          contiguous = h.contiguous;
          replays = rw (sync_keeps n.storage t.storage h.sound ran) h.replays;
        };
        synced = sync_durable n.storage t.storage h.sound ran;
      })

  abbrev pub held_order : Preorder (RaftNode S R)
  held_order = record {
    rel = λ n t. LogHeld (promise n) → LogHeld (promise t);
    stays = λ n h. h;
    chain = λ n t u f g h. g (f h);
  }

  abbrev pub durable_order : Preorder (RaftNode S R)
  durable_order = record {
    rel = λ n t. Durable (promise n) → Durable (promise t);
    stays = λ n h. h;
    chain = λ n t u f g h. g (f h);
  }

  pub quiet-held : {A : Type 0} (m : Action S R A) → Steps quiet m → Steps held_order m
  quiet-held m = Steps-weaken quiet held_order m (λ n t q h. subst LogHeld q.same h)

  pub quiet-durable : {A : Type 0} (m : Action S R A) → Steps quiet m → Steps durable_order m
  quiet-durable m = Steps-weaken quiet durable_order m (λ n t q h. subst Durable q.same h)

  pub kept_disk-held : {A : Type 0} (m : Action S R A) → Steps kept_disk m → Steps held_order m
  kept_disk-held m k = quiet-held m (of_kept_disk m k)

  abbrev pub IsHeld : RaftNode S R → Type 0
  IsHeld n = LogHeld (promise n)

  abbrev pub IsDurable : RaftNode S R → Type 0
  IsDurable n = Durable (promise n)

  -- An action that, where it returns, has made durable what the node promises by then.
  pub record Settles {A : Type 0} (m : Action S R A) : Type 0 where
    pub at : (n t : RaftNode S R) (a : A) → IsHeld n → m n ≡ (ok a, t) → IsDurable t

  -- An action that, where it returns, leaves a durable node durable.
  pub record Lasts {A : Type 0} (m : Action S R A) : Type 0 where
    pub at : (n t : RaftNode S R) (a : A) → IsDurable n → m n ≡ (ok a, t) → IsDurable t

  pub Settles-flush : Settles (persist env >>= λ _. sync env)
  Settles-flush = record {
    at = λ n t a h e.
        bind-ok_elim (persist env) (λ _. sync env) n e
          λ _ u saved e'. sync-Durable u t (persist-Saved n u h saved) e';
  }

  module _ {A : Type 0} where
    pub Settles-flush_then :
        (rest : Action S R A)
        → Steps quiet rest
        → Settles (persist env >>= λ _. (sync env >>= λ _. rest))
    Settles-flush_then rest q = record {
      at = λ n t a h e. bind-ok_elim (persist env) _ n e λ _ u saved e'.
          bind-ok_elim (sync env) _ u e' λ _ v flushed e''.
            run-rel durable_order rest (quiet-durable rest q) e''
              (sync-Durable u v (persist-Saved n u h saved) flushed);
    }

    pub Settles-if :
        (b : Bool) (m k : Action S R A) → Settles m → Settles k → Settles (if b then m else k)
    Settles-if true m k sm sk = sm
    Settles-if false m k sm sk = sk

    pub Lasts-if : (b : Bool) (m k : Action S R A) → Lasts m → Lasts k → Lasts (if b then m else k)
    Lasts-if true m k sm sk = sm
    Lasts-if false m k sm sk = sk

    pub Lasts-quiet : (m : Action S R A) → Steps quiet m → Lasts m
    Lasts-quiet m q = record { at = λ n t a h e. run-rel durable_order m (quiet-durable m q) e h }

    pub Lasts-Settles : (m : Action S R A) → Settles m → Lasts m
    Lasts-Settles m k = record { at = λ n t a h e. k.at n t a (Saved-LogHeld h.saved) e }

  module _ {A B : Type 0} where
    -- What leaves the log as it is on the disk may come before.
    pub Settles-bind :
        (m : Action S R A) (f : A → Action S R B)
        → Steps held_order m
        → ((a : A) → Settles (f a))
        → Settles (m >>= f)
    Settles-bind m f km kf = record {
      at = λ n t b h e.
          bind-ok_elim m f n e (λ a u ran e'. (kf a).at u t b (run-rel held_order m km ran h) e');
    }

    pub Lasts-bind :
        (m : Action S R A) (f : A → Action S R B)
        → Lasts m
        → ((a : A) → Lasts (f a))
        → Lasts (m >>= f)
    Lasts-bind m f km kf = record {
      at = λ n t b h e. bind-ok_elim m f n e (λ a u ran e'. (kf a).at u t b (km.at n u a h ran) e');
    }
