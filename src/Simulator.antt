-- ===== src/Simulator.antt =====
-- groundhog/sim/world.py: the loop that takes the earliest event, moves time to it and runs it. What
-- an event's action and the hooks after it do is the code of the nodes, the network and the
-- checkers: actions on the simulator, given as parameters. A run need not end, since actions set new
-- events, so the loop is on fuel: its result says when the fuel was used up.
pub mod Chronology
pub mod Traces
use ground_hog.Prelude.{
  ℕ, zero, suc, ◌+◌, List, [], ◌∷◌, ◌++◌, Option, none, some, Bool, true, false, ltb, if◌then◌else◌,
  map,
}
use ground_hog.Prelude.Sort.{sorted_items}
use ground_hog.Prelude.Dict.{Dict, nat_eq, contains, insert}
use ground_hog.Prelude.Outcome.{Outcome, ok, raised, Error, value_error}
use ground_hog.Prelude.Exec.{Exec, pure, raise, lift, gets, modify, when, for_each, ◌>>=◌, ◌>>◌}
use ground_hog.Clock.{SimClock, advance_to}
use ground_hog.Queue.{Event, peek_tick, pop, empty_queue}
use ground_hog.Types.{NodeId, Tick}

-- STOP_IDLE and STOP_MAX_TICKS; a run that has no fuel left has not stopped.
pub data StopReason : Type 0 where
  idle max_ticks out_of_fuel : StopReason

pub record RunResult : Type 0 where
  pub seed : ℕ
  pub events : ℕ
  pub final_tick : Tick
  pub rng_calls : ℕ
  pub stop_reason : StopReason

-- The records of a run, without the header that a caller may add.
pub data SimRecord (A : Type 0) : Type 0 where
  sim_start : ℕ → Tick → List NodeId → SimRecord A
  sim_event : Event A → ℕ → SimRecord A
  sim_error : Tick → ℕ → Error → SimRecord A
  sim_end : Tick → ℕ → ℕ → StopReason → SimRecord A

pub record Simulator (W A : Type 0) : Type 0 where
  -- of the source of randomness, what the loop reads: its seed, and how often it was called
  pub seed : ℕ
  pub rng_calls : ℕ
  pub clock : SimClock A
  -- what the actions act on, besides the clock
  pub world : W
  pub nodes : Dict NodeId (Unit {0})
  pub events : ℕ
  pub trace : List (SimRecord A)

module _ {W A : Type 0} where
  abbrev pub new_simulator : ℕ → W → Simulator W A
  new_simulator seed world = record {
    seed = seed;
    rng_calls = 0;
    clock = record { now = 0; queue = empty_queue };
    world = world;
    nodes = [];
    events = 0;
    trace = [];
  }

  unfoldable pub register : NodeId → Exec (Simulator W A) (Unit {0})
  register node_id = do
    known ← gets (λ s. contains node_id s.nodes)
    when known (raise value_error)
    modify (λ s. record s { nodes = insert node_id tt s.nodes })

  unfoldable pub write : SimRecord A → Exec (Simulator W A) (Unit {0})
  write r = modify (λ s. record s { trace = s.trace ++ r ∷ [] })

  -- `self.queue.peek_tick()` and `self.queue.pop()`
  unfoldable pub peek : Exec (Simulator W A) (Option Tick)
  peek s =
      let r = peek_tick s.clock.queue in
      (ok r.0, record s { clock = record s.clock { queue = r.1 } })

  unfoldable pub pop_event : Exec (Simulator W A) (Option (Event A))
  pop_event s =
      let r = pop s.clock.queue in (ok r.0, record s { clock = record s.clock { queue = r.1 } })

  abbrev set_clock : Simulator W A → Outcome (SimClock A) → Outcome (Unit {0}) × Simulator W A
  set_clock s (ok clock) = (ok tt, record s { clock = clock })
  set_clock s (raised e) = (raised e, s)

  unfoldable pub advance : Tick → Exec (Simulator W A) (Unit {0})
  advance tick s = set_clock s (advance_to tick s.clock)

  -- `try: m ... except Exception as exc: handle(exc); raise`
  unfoldable pub on_error :
      Exec (Simulator W A) (Unit {0})
      → (Error → Exec (Simulator W A) (Unit {0}))
      → Exec (Simulator W A) (Unit {0})
  on_error m handle s =
      let (r, t) = m s in elim r [ ok u ↦ (ok u, t) | raised e ↦ (raised e, (handle e t).1) ]

  module _ (action : A → Exec (Simulator W A) (Unit {0}))
      (after_event : List (Tick → Exec (Simulator W A) (Unit {0}))) where
    write_error : ℕ → Error → Exec (Simulator W A) (Unit {0})
    unfolding write
    write_error seq e = do now ← gets (λ s. s.clock.now); write (sim_error now seq e)

    -- The body of the loop, once an event was popped: after the clock has moved, and as a whole.
    run_action : Event A → Exec (Simulator W A) (Unit {0})
    unfolding write on_error write_error
    run_action event = do
      modify (λ s. record s { events = s.events + 1 })
      calls ← gets (λ s. s.rng_calls)
      write (sim_event event calls)
      on_error (action event.action >> for_each (λ hook. hook event.tick) after_event)
          (write_error event.seq)

    unfoldable pub run_event : Event A → Exec (Simulator W A) (Unit {0})
    unfolding advance run_action
    run_event event = do advance event.tick; run_action event

    run_popped :
        Exec (Simulator W A) StopReason → Option (Event A) → Exec (Simulator W A) StopReason
    unfolding run_event
    run_popped rest none = pure idle
    run_popped rest (some event) = do run_event event; rest

    run_next :
        Exec (Simulator W A) StopReason → Tick → Option Tick → Exec (Simulator W A) StopReason
    unfolding run_popped pop_event
    run_next rest limit none = pure idle
    run_next rest limit (some next_tick) =
        if ltb limit next_tick then pure max_ticks else (pop_event >>= run_popped rest)

    -- The loop of `run`.
    unfoldable pub run_loop : ℕ → Tick → Exec (Simulator W A) StopReason
    unfolding run_next peek
    run_loop zero limit = pure out_of_fuel
    run_loop (suc fuel) limit = peek >>= run_next (run_loop fuel limit) limit

    -- `Simulator.run`
    unfoldable pub run : ℕ → Tick → Exec (Simulator W A) RunResult
    unfolding run_loop write
    run fuel limit = do
      s ← gets (λ s. s)
      write (sim_start s.seed limit (map (λ p. p.0) (sorted_items s.nodes)))
      stop_reason ← run_loop fuel limit
      s ← gets (λ s. s)
      write (sim_end s.clock.now s.events s.rng_calls stop_reason)
      pure (record {
        seed = s.seed;
        events = s.events;
        final_tick = s.clock.now;
        rng_calls = s.rng_calls;
        stop_reason = stop_reason;
      })
