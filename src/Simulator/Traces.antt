-- ===== src/Simulator/Traces.antt =====
-- The order of a trace, and what the queue and the clock give to it.
use ground_hog.Prelude.{
  ℕ, ◌+◌, ◌≤◌, ◌≡◌, refl, sym, ◌∙◌, ap, List, [], ◌∷◌, ◌++◌, none, some, All, All-append,
  append-nil, arith, Bool-cases, inl, inr,
}
use ground_hog.Prelude.Dict.{Dict, nat_eq, contains}
use ground_hog.Prelude.Steps.{Preorder, Steps, Steps-modify}
use ground_hog.Clock.{advance_to, IsOnTime, advance_to-IsOnTime}
use ground_hog.Queue.{Event, EventQueue, drop_cancelled, peek_tick, pop_from, pop}
use ground_hog.Queue.Order.{Sorted}
use ground_hog.Types.{Tick}
use ground_hog.Simulator.{SimRecord, sim_event, sim_start, sim_error, sim_end, Simulator, write}

-- In ascending order, and no later than `now`.
abbrev pub Ascending : Tick → List Tick → Type 0
Ascending now [] = Unit
Ascending now (t ∷ ticks) = (t ≤ now) × All (λ u. t ≤ u) ticks × Ascending now ticks

Ascending-snoc :
    (now t : Tick) (ticks : List Tick)
    → Ascending now ticks
    → now ≤ t
    → Ascending t (ticks ++ t ∷ [])
Ascending-snoc now t [] a h = (omega arith, tt, tt)
Ascending-snoc now t (u ∷ ticks) a h = (
  omega (arith, a.0),
  All-append (λ v. u ≤ v) ticks (t ∷ []) a.1 (omega (arith, a.0), tt),
  Ascending-snoc now t ticks a.2 h,
)

module _ {A : Type 0} where
  -- The ticks of the events of a trace.
  unfoldable pub event_ticks : List (SimRecord A) → List Tick
  event_ticks [] = []
  event_ticks (sim_event e calls ∷ trace) = e.tick ∷ event_ticks trace
  event_ticks (_ ∷ trace) = event_ticks trace

  -- Dropping cancelled events from the front keeps what holds of the others.
  drop_cancelled-All :
      (P : Event A → Type 0) (pending : Dict ℕ (Event A)) (h : List (Event A))
      → All P h
      → All P (drop_cancelled pending h)
  unfolding drop_cancelled
  drop_cancelled-All P pending [] a = tt
  drop_cancelled-All P pending (e ∷ h) a = elim (Bool-cases (contains e.seq pending)) [
    | inl live ↦ rw live a
    | inr cancelled ↦ rw cancelled (drop_cancelled-All P pending h a.1)
  ]

  drop_cancelled-Sorted :
      (pending : Dict ℕ (Event A)) (h : List (Event A))
      → Sorted h
      → Sorted (drop_cancelled pending h)
  unfolding drop_cancelled
  drop_cancelled-Sorted pending [] s = tt
  drop_cancelled-Sorted pending (e ∷ h) s = elim (Bool-cases (contains e.seq pending)) [
    | inl live ↦ rw live s
    | inr cancelled ↦ rw cancelled (drop_cancelled-Sorted pending h s.1)
  ]

  -- The event that is popped after a peek has the tick that was peeked.
  pub peeked_tick :
      (q q' : EventQueue A) (h : List (Event A)) (e : Event A) (t : Tick)
      → elim (drop_cancelled q.pending h) [ [] ↦ none | f ∷ _ ↦ some f.tick ] ≡ some t
      → pop_from (drop_cancelled q.pending h) (record q { heap = drop_cancelled q.pending h })
        ≡ (some e, q')
      → e.tick ≡ t
  unfolding drop_cancelled pop_from
  peeked_tick q q' [] e t p r = cc
  peeked_tick q q' (f ∷ h) e t p r = elim (Bool-cases (contains f.seq q.pending)) [
    | inl live ↦
        let next : pop_from (f ∷ h) (record q { heap = f ∷ h }) ≡ (some e, q') = rw live at r in
        let popped : some f ≡ some e = ap (λ r. r.0) (rw live at next) in
        let one : f ≡ e = cc in
        let tick : some f.tick ≡ some t = rw live at p in
        let same : f.tick ≡ t = cc in rw one at same
    | inr cancelled ↦ peeked_tick q q' h e t (rw cancelled at p) (rw cancelled at r)
  ]

  -- A queue that gives no event is empty.
  pub popped_none :
      (h : List (Event A)) (q q' : EventQueue A) → pop_from h q ≡ (none, q') → q'.heap ≡ []
  unfolding pop_from
  popped_none [] q q' r = sym (ap (λ r. r.1.heap) r)
  popped_none (f ∷ h) q q' r = elim (Bool-cases (contains f.seq q.pending)) [
    | inl live ↦ let told : some f ≡ none = ap (λ r. r.0) (rw live at r) in cc
    | inr cancelled ↦ popped_none h q q' (rw cancelled at r)
  ]

  event_ticks-append :
      (xs ys : List (SimRecord A)) → event_ticks (xs ++ ys) ≡ event_ticks xs ++ event_ticks ys
  unfolding event_ticks
  event_ticks-append [] ys = refl
  event_ticks-append (sim_event f calls ∷ xs) ys = ap (λ ts. f.tick ∷ ts) (event_ticks-append xs ys)
  event_ticks-append (sim_start n t is ∷ xs) ys = event_ticks-append xs ys
  event_ticks-append (sim_error t n x ∷ xs) ys = event_ticks-append xs ys
  event_ticks-append (sim_end t n k r ∷ xs) ys = event_ticks-append xs ys

  event_ticks-snoc :
      (trace : List (SimRecord A)) (e : Event A) (calls : ℕ)
      → event_ticks (trace ++ sim_event e calls ∷ []) ≡ event_ticks trace ++ e.tick ∷ []
  unfolding event_ticks
  event_ticks-snoc trace e calls = event_ticks-append trace (sim_event e calls ∷ [])

module _ {W A : Type 0} where
  -- A run in progress: its events came in the order of time, none past the limit, and the clock is
  -- on time.
  pub record InOrder (limit : Tick) (s : Simulator W A) : Type 0 where
    pub on_time : IsOnTime s.clock
    pub ascending : Ascending s.clock.now (event_ticks s.trace)
    pub within : All (λ t. t ≤ limit) (event_ticks s.trace)

  -- What an action may do: set events, none into the past, and write records that are no events.
  pub record Schedules (s t : Simulator W A) : Type 0 where
    pub on_time : IsOnTime s.clock → IsOnTime t.clock
    pub same_now : s.clock.now ≡ t.clock.now
    pub same_ticks : event_ticks s.trace ≡ event_ticks t.trace

  abbrev pub schedules : Preorder (Simulator W A)
  schedules = record {
    rel = Schedules;
    stays = λ s. record { on_time = λ h. h; same_now = refl; same_ticks = refl };
    chain = λ s t u p q. record {
      on_time = λ h. q.on_time (p.on_time h);
      same_now = p.same_now ∙ q.same_now;
      same_ticks = p.same_ticks ∙ q.same_ticks;
    };
  }

  pub InOrder-Schedules :
      (limit : Tick) (s t : Simulator W A) → InOrder limit s → Schedules s t → InOrder limit t
  InOrder-Schedules limit s t h k = record {
    on_time = k.on_time h.on_time;
    ascending = rw (← k.same_now, ← k.same_ticks) h.ascending;
    within = rw (← k.same_ticks) h.within;
  }

  -- A queue after a peek, and what a peek answered.
  unfoldable pub after_peek : Simulator W A → Simulator W A
  after_peek s = record s { clock = record s.clock { queue = (peek_tick s.clock.queue).1 } }

  pub after_peek-InOrder :
      (limit : Tick) (s : Simulator W A) → InOrder limit s → InOrder limit (after_peek s)
  unfolding after_peek peek_tick
  after_peek-InOrder limit s h =
      let q = s.clock.queue in
      record {
        on_time = record {
          ordered = record {
            sorted = drop_cancelled-Sorted q.pending q.heap h.on_time.ordered.sorted;
            given = drop_cancelled-All _ q.pending q.heap h.on_time.ordered.given;
          };
          ahead = drop_cancelled-All _ q.pending q.heap h.on_time.ahead;
        };
        ascending = h.ascending;
        within = h.within;
      }

  -- The state in which the action of a popped event starts.
  unfoldable pub started : Simulator W A → Event A → EventQueue A → Simulator W A
  started s e q = record s {
    clock = record { now = e.tick; queue = q };
    events = s.events + 1;
    trace = s.trace ++ sim_event e s.rng_calls ∷ [];
  }

  pub started-InOrder :
      (limit : Tick) (s : Simulator W A) (e : Event A) (q : EventQueue A)
      → InOrder limit s
      → pop s.clock.queue ≡ (some e, q)
      → e.tick ≤ limit
      → InOrder limit (started s e q)
  unfolding started advance_to
  started-InOrder limit s e q h popped within =
      let moved = advance_to-IsOnTime s.clock e q h.on_time popped in
      let later : s.clock.now ≤ e.tick = ground (arith, moved.0) in
      record {
        on_time = moved.1;
        ascending =
            rw (event_ticks-snoc s.trace e s.rng_calls)
              (Ascending-snoc s.clock.now e.tick (event_ticks s.trace) h.ascending later);
        within =
            rw (event_ticks-snoc s.trace e s.rng_calls) (
              All-append (λ t. t ≤ limit) (event_ticks s.trace) (e.tick ∷ []) h.within
                (within, tt));
      }

  -- A record that is no event may be written.
  pub Steps-write : (r : SimRecord A) → event_ticks (r ∷ []) ≡ [] → Steps schedules (write r)
  unfolding write
  Steps-write r other = Steps-modify _ (λ s. record {
    on_time = λ h. h;
    same_now = refl;
    same_ticks = sym (
        event_ticks-append s.trace (r ∷ [])
        ∙ ap (λ ts. event_ticks s.trace ++ ts) other
        ∙ append-nil (event_ticks s.trace));
  })
