-- ===== src/Clock.antt =====
-- groundhog/clock.py: virtual time over the event queue. A clock is its time; the queue is passed.
use ground_hog.Prelude.{
  ◌+◌, ◌≤◌, ◌≡◌, ap, List, [], ◌∷◌, Option, some, ltb, if◌then◌else◌, All, arith, inl, inr,
  Bool-cases,
}
use mathlib.Core.Path.{subst}
use ground_hog.Prelude.Dict.{Text, contains, nat_eq}
use ground_hog.Prelude.Outcome.{Outcome, ok, raised, runtime_error}
use ground_hog.Types.{NodeId, Tick}
use ground_hog.Queue.{Event, EventQueue, schedule, pop_from, pop}
use ground_hog.Queue.Order.{Precedes, IsOrdered, All-push, schedule-IsOrdered, pop-Gave}

-- `SimClock`, with the queue that it shares.
pub record SimClock (A : Type 0) : Type 0 where
  pub now : Tick
  pub queue : EventQueue A

module _ {A : Type 0} where
  -- `SimClock.after`: the event stands for the timer. A delay is a natural number, so the guard
  -- against a negative one has nothing to refuse.
  unfoldable pub after : Tick → A → Text → Option NodeId → SimClock A → Event A × SimClock A
  after delay callback name actor c =
      let (event, queue) = schedule (c.now + delay) name callback actor c.queue in
      (event, record c { queue = queue })

  unfoldable pub advance_to : Tick → SimClock A → Outcome (SimClock A)
  advance_to tick c = if ltb tick c.now then raised runtime_error else ok (record c { now = tick })

  -- The queue is in order, and holds no event of the past.
  pub record IsOnTime (c : SimClock A) : Type 0 where
    pub ordered : IsOrdered c.queue
    pub ahead : All (λ (e : Event A). c.now ≤ e.tick) c.queue.heap

  -- A timer is never set into the past.
  pub after-IsOnTime :
      (delay : Tick) (callback : A) (name : Text) (actor : Option NodeId) (c : SimClock A)
      → IsOnTime c
      → IsOnTime (after delay callback name actor c).1
  unfolding after schedule
  after-IsOnTime delay callback name actor c h = record {
    ordered = schedule-IsOrdered (c.now + delay) name callback actor c.queue h.ordered;
    ahead = All-push (λ (e : Event A). c.now ≤ e.tick) _ c.queue.heap (omega arith) h.ahead;
  }

  -- Whatever holds of every event in the heap holds of the one that is popped.
  pop_from-All :
      (P : Event A → Type 0) (h : List (Event A)) (q q' : EventQueue A) (e : Event A)
      → All P h
      → pop_from h q ≡ (some e, q')
      → P e
  unfolding pop_from
  pop_from-All P [] q q' e a p = cc
  pop_from-All P (f ∷ h) q q' e a p = elim (Bool-cases (contains f.seq q.pending)) [
    | inl live ↦
        let found : some f ≡ some e = ap (λ p. p.0) (rw live at p) in
        let same : f ≡ e = cc in subst P same a.0
    | inr cancelled ↦ pop_from-All P h q q' e a.1 (rw cancelled at p)
  ]

  not_before :
      (e : Event A) (h : List (Event A))
      → All (Precedes e) h
      → All (λ (f : Event A). e.tick ≤ f.tick) h
  not_before e [] a = tt
  not_before e (f ∷ h) a =
      (elim a.0 [ inl p ↦ omega arith | inr p ↦ omega (arith, p.0) ], not_before e h a.1)

  -- On a clock whose queue is in order and holds no event of the past, the clock can advance to the
  -- event that the queue gives: this does not raise, and the clock and the queue are again so.
  pub advance_to-IsOnTime :
      (c : SimClock A) (e : Event A) (q : EventQueue A)
      → IsOnTime c
      → pop c.queue ≡ (some e, q)
      → (advance_to e.tick (record c { queue = q }) ≡ ok (record { now = e.tick; queue = q }))
        × IsOnTime (record { now = e.tick; queue = q })
  unfolding advance_to pop
  advance_to-IsOnTime c e q h p =
      let popped = pop-Gave c.queue q (some e) h.ordered p in
      let later : c.now ≤ e.tick =
        pop_from-All (λ (e : Event A). c.now ≤ e.tick) c.queue.heap c.queue q e h.ahead p in
      (
        ground (arith, later),
        record { ordered = popped.ordered; ahead = not_before e q.heap popped.first },
      )
