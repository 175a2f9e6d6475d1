-- ===== src/Node/Plumbing.antt =====
-- The node's calls of the world: trace, network, timers and persistence.
use ground_hog.Prelude.{ℕ, ◌+◌, List, [], ◌∷◌, ◌++◌, Option, none, some}
use ground_hog.Prelude.Exec.{Exec, ◌>>=◌, ◌>>◌, pure, gets, modify, for_each}
use ground_hog.Log.{LogEntry}
use ground_hog.Messages.{Message}
use ground_hog.Persist
use ground_hog.Persist.{HardState}
use ground_hog.Types.{NodeId, Index, Tick}
use ground_hog.Node.State.{
  Services, Action, Effect, deliver, start_timer, cancel_timer, trace, TraceRecord, sent, TimerKind,
  election_timeout, heartbeat, election_timeout_low, election_timeout_high, heartbeat_interval,
}

module _ {S R : Type 0} where
  unfoldable pub perform : Effect → Action S R (Unit {0})
  perform e = modify (λ n. record n { effects = n.effects ++ e ∷ [] })

  -- `record(kind, **fields)`
  unfoldable pub write_trace : TraceRecord → Action S R (Unit {0})
  unfolding perform
  write_trace r = perform (trace r)

  unfoldable pub send : NodeId → Message → Action S R (Unit {0})
  unfolding perform write_trace
  send to msg = do write_trace (sent to msg); perform (deliver to msg)

  unfoldable pub broadcast : Message → Action S R (Unit {0})
  broadcast msg = do peers ← gets (λ n. n.peers); for_each (λ peer. send peer msg) peers

  unfoldable pub cancel_if : Option ℕ → Action S R (Unit {0})
  unfolding perform
  cancel_if none = pure tt
  cancel_if (some id) = perform (cancel_timer id)

  unfoldable pub cancel_election_timer : Action S R (Unit {0})
  unfolding cancel_if
  cancel_election_timer = do
    timer ← gets (λ n. n.election_timer)
    cancel_if timer
    modify (λ n. record n { election_timer = none })

  unfoldable pub cancel_heartbeat : Action S R (Unit {0})
  unfolding cancel_if
  cancel_heartbeat = do
    timer ← gets (λ n. n.heartbeat_timer)
    cancel_if timer
    modify (λ n. record n { heartbeat_timer = none })

  unfoldable pub cancel_timers : Action S R (Unit {0})
  unfolding cancel_election_timer cancel_heartbeat
  cancel_timers = do cancel_election_timer; cancel_heartbeat

  -- `clock.after`: the handle of the new timer
  unfoldable pub after : Tick → TimerKind → Action S R ℕ
  unfolding perform
  after delay kind = do
    id ← gets (λ n. n.next_timer)
    modify (λ n. record n { next_timer = id + 1 })
    perform (start_timer id delay kind)
    pure id

  unfoldable pub arm_heartbeat_timer : Action S R (Unit {0})
  unfolding cancel_heartbeat after
  arm_heartbeat_timer = do
    cancel_heartbeat
    id ← after heartbeat_interval heartbeat
    modify (λ n. record n { heartbeat_timer = some id })

  -- A call of storage or of the random source changes its own state only.
  unfoldable pub on_storage : {A : Type 0} → Exec S A → Action S R A
  on_storage m n = let (r, s) = m n.storage in (r, record n { storage = s })

  unfoldable pub on_rng : {A : Type 0} → Exec R A → Action S R A
  on_rng m n = let (r, g) = m n.rng in (r, record n { rng = g })

module _ {S R : Type 0} (env : Services S R) where
  unfoldable pub arm_election_timer : Action S R (Unit {0})
  unfolding cancel_election_timer on_rng after
  arm_election_timer = do
    cancel_election_timer
    delay ← on_rng (env.between election_timeout_low election_timeout_high)
    id ← after delay election_timeout
    modify (λ n. record n { election_timer = some id })

  -- None of these syncs.
  unfoldable pub persist : Action S R (Unit {0})
  unfolding on_storage
  persist = do
    state ← gets (λ n. record { current_term = n.current_term; voted_for = n.voted_for })
    on_storage (Persist.save_state env.store state)

  unfoldable pub persist_entries : List LogEntry → Action S R (Unit {0})
  unfolding on_storage
  persist_entries entries = on_storage (Persist.append_entries env.store entries)

  unfoldable pub persist_truncation : Index → Action S R (Unit {0})
  unfolding on_storage
  persist_truncation index = on_storage (Persist.truncate_from env.store index)

  unfoldable pub sync : Action S R (Unit {0})
  unfolding on_storage
  sync = on_storage env.store.sync
