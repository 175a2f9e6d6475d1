-- ===== src/Tests/Runs.antt =====
-- A run of the simulator whose one event does nothing.
use ground_hog.Prelude.{[], none}
use ground_hog.Prelude.Exec.{Exec, pure, for_each}
use ground_hog.Prelude.Steps.{Steps, Steps-pure}
use ground_hog.Types.{Tick}
use ground_hog.Queue.{empty_queue}
use ground_hog.Clock.{SimClock}
use ground_hog.Clock
use ground_hog.Clock.{IsOnTime, after-IsOnTime}
use ground_hog.Simulator.{Simulator, new_simulator, run}
use ground_hog.Simulator.Chronology.{run-InOrder}
use ground_hog.Simulator.Traces.{InOrder, schedules, event_ticks}

abbrev nothing : Unit {0} → Exec (Simulator (Unit {0}) (Unit {0})) (Unit {0})
nothing a = pure tt

no_hooks :
    (tick : Tick)
    → Steps schedules (
        for_each {S = Simulator (Unit {0}) (Unit {0})}
          (λ (hook : Tick → Exec (Simulator (Unit {0}) (Unit {0})) (Unit {0})). hook tick)
          [])
unfolding for_each
no_hooks tick = Steps-pure tt

-- One event is due at 20.
abbrev loaded : Simulator (Unit {0}) (Unit {0})
loaded = record (new_simulator 7 tt) {
  clock = (Clock.after 20 tt [] none (record { now = 0; queue = empty_queue })).1;
}

loaded-InOrder : InOrder 50 loaded
unfolding event_ticks
loaded-InOrder = record {
  on_time =
      after-IsOnTime 20 tt [] none (record { now = 0; queue = empty_queue })
        (record { ordered = record { sorted = tt; given = tt }; ahead = tt });
  ascending = tt;
  within = tt;
}

run-InOrder_example : InOrder 50 (run nothing [] 5 50 loaded).1
run-InOrder_example =
    run-InOrder nothing [] (λ a. Steps-pure tt) no_hooks 5 50 loaded loaded-InOrder
