-- ===== src/Simulator/Chronology.antt =====
-- A run takes its events in the order of time, and none past its limit.
use ground_hog.Prelude.{
  ℕ, zero, suc, ◌≤◌, ◌≡◌, refl, sym, ◌∙◌, ap, List, [], Option, none, some, ltb, arith, Bool-cases,
  inl, inr, map,
}
use mathlib.Core.Path.{subst}
use ground_hog.Prelude.Dict.{nat_eq}
use ground_hog.Prelude.Outcome.{Outcome, ok, raised, Error}
use ground_hog.Prelude.Exec.{Exec, pure, gets, modify, for_each, ◌>>=◌}
use ground_hog.Prelude.Steps.{Steps, Steps-bind, Steps-gets, bind-returns}
use ground_hog.Clock.{advance_to-IsOnTime}
use ground_hog.Queue.{Event, EventQueue, peek_tick, pop}
use ground_hog.Types.{Tick}
use ground_hog.Prelude.Sort.{sorted_items}
use ground_hog.Simulator.{
  SimRecord, StopReason, sim_start, sim_error, sim_end, Simulator, write, peek, pop_event, advance,
  on_error, set_clock, write_error, run_action, run_event, run_popped, run_next, run_loop, run,
}
use ground_hog.Simulator.Traces.{
  event_ticks, popped_none, peeked_tick, InOrder, Schedules, schedules, InOrder-Schedules,
  after_peek, after_peek-InOrder, started, started-InOrder, Steps-write,
}

module _ {W A : Type 0} where
  module _ (action : A → Exec (Simulator W A) (Unit {0}))
      (after_event : List (Tick → Exec (Simulator W A) (Unit {0})))
      (acts : (a : A) → Steps schedules (action a))
      (hooks : (tick : Tick) → Steps schedules (for_each (λ hook. hook tick) after_event)) where
    Steps-write_error :
        (seq : ℕ) (x : Error) → Steps schedules (write_error action after_event seq x)
    unfolding write_error event_ticks
    Steps-write_error seq x =
        Steps-bind (gets (λ s. s.clock.now)) _ (Steps-gets _)
          (λ now. Steps-write (sim_error now seq x) refl)

    Steps-on_error :
        (m : Exec (Simulator W A) (Unit {0})) (handle : Error → Exec (Simulator W A) (Unit {0}))
        → Steps schedules m
        → ((x : Error) → Steps schedules (handle x))
        → Steps schedules (on_error m handle)
    unfolding on_error
    Steps-on_error m handle km kh = record { at = λ s. go s (m s) (km.at s) }
      where
        go :
            (s : Simulator W A) (r : Outcome (Unit {0}) × Simulator W A)
            → Schedules s r.1
            → Schedules s
                (let (o, t) = r in
                  let x : Outcome (Unit {0}) × Simulator W A = elim o [
                    | ok u ↦ (ok u, t)
                    | raised e ↦ (raised e, (handle e t).1)
                  ] in
                  x).1
        go s (ok u, t) k = k
        go s (raised x, t) k = schedules.chain s t (handle x t).1 k ((kh x).at t)

    run_event-InOrder :
        (limit : Tick) (s : Simulator W A) (e : Event A) (q : EventQueue A)
        → InOrder limit s
        → pop s.clock.queue ≡ (some e, q)
        → e.tick ≤ limit
        → InOrder limit
            (run_event action after_event e (record s { clock = record s.clock { queue = q } })).1
    unfolding run_event advance run_action write modify ◌>>=◌ started gets
    run_event-InOrder limit s e q h popped within =
        let here : Simulator W A = record s { clock = record s.clock { queue = q } } in
        let moved = (advance_to-IsOnTime s.clock e q h.on_time popped).0 in
        let advanced : advance e.tick here
            ≡ (ok tt, record here { clock = record { now = e.tick; queue = q } }) =
          ap (set_clock here) moved in
        let ran =
          (Steps-on_error _ (write_error action after_event e.seq)
              (Steps-bind (action e.action) _ (acts e.action) (λ _. hooks e.tick))
              (Steps-write_error e.seq)).at
            (started s e q) in
        subst (λ r. InOrder limit r.1)
          (sym (
            bind-returns (advance e.tick) (λ _. run_action action after_event e) here
              (ap (λ r. r.0) advanced)
            ∙ ap (λ r. run_action action after_event e r.1) advanced))
          (InOrder-Schedules limit (started s e q) _ (started-InOrder limit s e q h popped within)
            ran)

    -- What runs on after a step whose state is in order, where the rest keeps the order.
    bind-InOrder :
        {X Y : Type 0} (limit : Tick) (m : Exec (Simulator W A) X) (f : X → Exec (Simulator W A) Y)
        (s : Simulator W A)
        → InOrder limit (m s).1
        → ((x : X) (t : Simulator W A) → InOrder limit t → InOrder limit (f x t).1)
        → InOrder limit ((m >>= f) s).1
    unfolding ◌>>=◌
    bind-InOrder {X} {Y} limit m f s h k = go (m s) h
      where
        go :
            (r : Outcome X × Simulator W A)
            → InOrder limit r.1
            → InOrder limit
                (let (o, t) = r in
                  let y : Outcome Y × Simulator W A = elim o [
                    | ok x ↦ f x t
                    | raised e ↦ (raised e, t)
                  ] in
                  y).1
        go (ok x, t) h = k x t h
        go (raised e, t) h = h

    module _ (limit : Tick) (rest : Exec (Simulator W A) StopReason)
        (keeps : (s : Simulator W A) → InOrder limit s → InOrder limit (rest s).1) where
      run_popped-InOrder :
          (s : Simulator W A) (o : Option (Event A)) (q : EventQueue A)
          → InOrder limit s
          → pop s.clock.queue ≡ (o, q)
          → ((e : Event A) → o ≡ some e → e.tick ≤ limit)
          → InOrder limit
              (run_popped action after_event rest o
                (record s { clock = record s.clock { queue = q } })).1
      unfolding run_popped pop pure
      run_popped-InOrder s none q h popped within =
          let empty : q.heap ≡ [] = popped_none s.clock.queue.heap s.clock.queue q popped in
          record {
            on_time = record {
              ordered = record { sorted = rw empty tt; given = rw empty tt };
              ahead = rw empty tt;
            };
            ascending = h.ascending;
            within = h.within;
          }
      run_popped-InOrder s (some e) q h popped within =
          bind-InOrder limit (run_event action after_event e) (λ _. rest) _
            (run_event-InOrder limit s e q h popped (within e refl)) (λ _ t k. keeps t k)

      run_next-InOrder :
          (s : Simulator W A) (o : Option Tick)
          → InOrder limit s
          → (peek_tick s.clock.queue).0 ≡ o
          → InOrder limit (run_next action after_event rest limit o (after_peek s)).1
      unfolding run_next pop_event after_peek peek_tick pop pure ◌>>=◌
      run_next-InOrder s none h peeked = after_peek-InOrder limit s h
      run_next-InOrder s (some t) h peeked = elim (Bool-cases (ltb limit t)) [
        | inl past ↦ rw past (after_peek-InOrder limit s h)
        | inr within ↦ rw within (
            run_popped-InOrder (after_peek s) (pop (after_peek s).clock.queue).0
              (pop (after_peek s).clock.queue).1 (after_peek-InOrder limit s h) refl
              (λ e popped.
                let q = s.clock.queue in
                let same : e.tick ≡ t =
                  peeked_tick q (pop (after_peek s).clock.queue).1 q.heap e t peeked
                    (ap (λ o. (o, (pop (after_peek s).clock.queue).1)) popped) in
                ground (arith, within)))
      ]

    run_loop-InOrder :
        (fuel : ℕ) (limit : Tick) (s : Simulator W A)
        → InOrder limit s
        → InOrder limit (run_loop action after_event fuel limit s).1
    unfolding run_loop peek after_peek pure ◌>>=◌
    run_loop-InOrder zero limit s h = h
    run_loop-InOrder (suc fuel) limit s h =
        run_next-InOrder limit (run_loop action after_event fuel limit)
          (λ t k. run_loop-InOrder fuel limit t k) s (peek_tick s.clock.queue).0 h refl

    abbrev start_record : Tick → Simulator W A → SimRecord A
    start_record limit s = sim_start s.seed limit (map (λ p. p.0) (sorted_items s.nodes))

    -- Where the actions and the hooks set no event into the past, leave the time alone and write no
    -- events to the trace, a run from a state in order ends in one, whether it returns, raises or
    -- uses up its fuel: the events of its trace are in ascending order of their ticks, none is past
    -- the limit, and the clock is on time.
    pub run-InOrder :
        (fuel : ℕ) (limit : Tick) (s : Simulator W A)
        → InOrder limit s
        → InOrder limit (run action after_event fuel limit s).1
    unfolding run gets pure event_ticks
    run-InOrder fuel limit s h = bind-InOrder limit (gets (λ s. s)) _ s h λ now c hc.
        bind-InOrder limit (write (start_record limit now)) _ c
          (InOrder-Schedules limit c _ hc ((Steps-write (start_record limit now) refl).at c))
          λ _ a ha.
            bind-InOrder limit (run_loop action after_event fuel limit) _ a
              (run_loop-InOrder fuel limit a ha)
              λ reason b hb. bind-InOrder limit (gets (λ s. s)) _ b hb λ now c hc.
                bind-InOrder limit (write (sim_end now.clock.now now.events now.rng_calls reason)) _
                  c
                  (InOrder-Schedules limit c _ hc (
                    (Steps-write (sim_end now.clock.now now.events now.rng_calls reason) refl).at
                      c))
                  (λ _ d hd. hd)
