-- ===== src/Net/Waking.antt =====
-- What becomes of the packets that waited for a node that hung, when it runs again.
use ground_hog.Prelude.{
  ℕ, ◌+◌, ◌≡◌, ◌≢◌, refl, ◌∙◌, ap, List, [], ◌∷◌, ◌++◌, Option, some, true, arith, Bool-cases, ◌⊎◌,
  inl, inr, Memᴰ, length,
}
use mathlib.Core.Path.{subst}
use mathlib.Core.List.Memᴰ
use ground_hog.Prelude.Dict.{Dict, nat_eq, lookup, contains, insert, lookup-insert}
use ground_hog.Prelude.Outcome.{ok}
use ground_hog.Prelude.Exec.{Exec, pure, raise, gets, modify, for_each, ◌>>=◌, ◌>>◌}
use ground_hog.Clock
use ground_hog.Clock.{SimClock}
use ground_hog.Disk.{Draws}
use ground_hog.Queue.{Event, precedes, push, schedule}
use ground_hog.Types.{NodeId, Tick}
use ground_hog.Net.{
  SimNetwork, running, hung, at_key, write_record, net_release, net_deliver_held, schedule_after,
  release_all, release, after_change, set_state,
}

module _ {A : Type 0} where
  push-new : (e : Event A) (h : List (Event A)) → Memᴰ e (push e h)
  unfolding push
  push-new e [] = Memᴰ.head refl
  push-new e (f ∷ h) = elim (Bool-cases (precedes e f)) [
    | inl first ↦ rw first (Memᴰ.head refl)
    | inr after ↦ rw after (Memᴰ.tail (push-new e h))
  ]

  push-old : (e f : Event A) (h : List (Event A)) → Memᴰ f h → Memᴰ f (push e h)
  unfolding push
  push-old e f [] m = Memᴰ.tail m
  push-old e f (g ∷ h) m = elim (Bool-cases (precedes e g)) [
    | inl first ↦ rw first (Memᴰ.tail m)
    | inr after ↦ rw after (elim (Memᴰ.cases_cons m) [
      | inl here ↦ Memᴰ.head here
      | inr below ↦ Memᴰ.tail (push-old e f h below)
    ])
  ]

  push-only : (e f : Event A) (h : List (Event A)) → Memᴰ f (push e h) → (f ≡ e) ⊎ Memᴰ f h
  unfolding push
  push-only e f [] m = Memᴰ.cases_cons m
  push-only e f (g ∷ h) m = elim (Bool-cases (precedes e g)) [
    | inl first ↦ Memᴰ.cases_cons (rw first at m)
    | inr after ↦ elim (Memᴰ.cases_cons (rw after at m)) [
      | inl here ↦ inr (Memᴰ.head here)
      | inr below ↦ elim (push-only e f h below) [
        | inl new ↦ inl new
        | inr old ↦ inr (Memᴰ.tail old)
      ]
    ]
  ]

  still_pending :
      (k j : ℕ) (e : Event A) (d : Dict ℕ (Event A))
      → contains k d ≡ true
      → contains k (insert j e d) ≡ true
  still_pending k j e d h = ground (arith, lookup-insert j k e d)

-- A key that is there.
at_key-found :
    {S V B : Type 0} (o : Option V) (v : V) (f : V → Exec S B) (s : S)
    → o ≡ some v
    → (at_key o >>= f) s ≡ f v s
unfolding pure raise ◌>>=◌
at_key-found o v f s e = ap (λ o. (at_key o >>= f) s) e

module _ {A M : Type 0} (arrival : NodeId → NodeId → M → A) (i : NodeId) where
  -- The events that bring the packets, from a number on.
  abbrev pub held_events : Tick → ℕ → List (NodeId × M) → List (Event A)
  held_events tick seq [] = []
  held_events tick seq (p ∷ packets) =
      record {
        tick = tick;
        seq = seq;
        kind = net_deliver_held;
        action = arrival p.0 i p.1;
        actor = some i;
      }
      ∷ held_events tick (seq + 1) packets

  -- The clock after the packets were scheduled.
  wake_all : List (NodeId × M) → SimClock A → SimClock A
  wake_all [] c = c
  wake_all (p ∷ packets) c =
      wake_all packets (Clock.after 0 (arrival p.0 i p.1) net_deliver_held (some i) c).1

  -- What was added to the queue of a clock: these events, each of them live, and no others.
  pub record Added (events : List (Event A)) (c d : SimClock A) : Type 0 where
    pub same_now : d.now ≡ c.now
    pub due : (e : Event A) → Memᴰ e events → Memᴰ e d.queue.heap
    pub live : (e : Event A) → Memᴰ e events → contains e.seq d.queue.pending ≡ true
    pub kept : (e : Event A) → Memᴰ e c.queue.heap → Memᴰ e d.queue.heap
    pub kept_live : (k : ℕ) → contains k c.queue.pending ≡ true → contains k d.queue.pending ≡ true
    pub only : (e : Event A) → Memᴰ e d.queue.heap → Memᴰ e c.queue.heap ⊎ Memᴰ e events

  wake_all-Added :
      (packets : List (NodeId × M)) (c : SimClock A)
      → Added (held_events (c.now + 0) c.queue.next_seq packets) c (wake_all packets c)
  unfolding wake_all Clock.after schedule
  wake_all-Added [] c = record {
    same_now = refl;
    due = λ e m. absurd (Memᴰ.not-nil m);
    live = λ e m. absurd (Memᴰ.not-nil m);
    kept = λ e m. m;
    kept_live = λ k h. h;
    only = λ e m. inl m;
  }
  wake_all-Added (p ∷ packets) c =
      let q = c.queue in
      let new : Event A = record {
        tick = c.now + 0;
        seq = q.next_seq;
        kind = net_deliver_held;
        action = arrival p.0 i p.1;
        actor = some i;
      } in
      let rest =
        wake_all-Added packets (Clock.after 0 (arrival p.0 i p.1) net_deliver_held (some i) c).1 in
      let pending : contains new.seq (insert new.seq new q.pending) ≡ true =
        ground (arith, lookup-insert new.seq new.seq new q.pending) in
      record {
        same_now = rest.same_now;
        due = λ e m. elim (Memᴰ.cases_cons m) [
          | inl here ↦ rw here (rest.kept new (push-new new q.heap))
          | inr below ↦ rest.due e below
        ];
        live = λ e m. elim (Memᴰ.cases_cons m) [
          | inl here ↦ rw here (rest.kept_live new.seq pending)
          | inr below ↦ rest.live e below
        ];
        kept = λ e m. rest.kept e (push-old new e q.heap m);
        kept_live = λ k h. rest.kept_live k (still_pending k new.seq new q.pending h);
        only = λ e m. elim (rest.only e m) [
          | inr later ↦ inr (Memᴰ.tail later)
          | inl before ↦ elim (push-only new e q.heap before) [
            | inl here ↦ inr (Memᴰ.head here)
            | inr old ↦ inl old
          ]
        ];
      }

-- What the end of a hang leaves of the network.
module _ {A M R : Type 0} (draws : Draws R) (arrival : NodeId → NodeId → M → A) where
  schedule_all :
      (i : NodeId) (packets : List (NodeId × M)) (n : SimNetwork A M R)
      → for_each (λ q. schedule_after draws arrival q.0 i q.1 net_deliver_held 0) packets n
        ≡ (ok tt, record n { clock = wake_all arrival i packets n.clock })
  unfolding for_each schedule_after wake_all modify pure ◌>>=◌
  schedule_all i [] n = refl
  schedule_all i (p ∷ packets) n =
      schedule_all i packets (record n {
        clock = (Clock.after 0 (arrival p.0 i p.1) net_deliver_held (some i) n.clock).1;
      })

  pub record Woken (i : NodeId) (packets : List (NodeId × M)) (s t : SimNetwork A M R)
      : Type 0 where
    pub up : lookup i t.states ≡ some running
    pub emptied : lookup i t.held ≡ some []
    pub others : (j : NodeId) → j ≢ i → lookup j t.held ≡ lookup j s.held
    pub added :
        Added arrival i
          (held_events arrival i s.clock.now s.clock.queue.next_seq packets)
          s.clock
          t.clock
    pub same_calls : t.calls ≡ s.calls
    pub same_delivered : t.delivered ≡ s.delivered
    pub same_dropped : t.dropped ≡ s.dropped

  -- The network after the end of a hang, once every packet is scheduled.
  woken : NodeId → List (NodeId × M) → SimNetwork A M R → SimNetwork A M R
  unfolding wake_all
  woken i [] s = record s { states = insert i running s.states }
  woken i (p ∷ packets) s = record s {
    states = insert i running s.states;
    held = insert i [] s.held;
    trace = s.trace ++ net_release i (length (p ∷ packets)) ∷ [];
    clock = wake_all arrival i (p ∷ packets) s.clock;
  }

  release_all-woken :
      (i : NodeId) (packets : List (NodeId × M)) (s : SimNetwork A M R)
      → release_all draws arrival i packets (record s { states = insert i running s.states })
        ≡ (ok tt, woken i packets s)
  unfolding woken release_all write_record modify pure ◌>>=◌
  release_all-woken i [] s = refl
  release_all-woken i (p ∷ packets) s = schedule_all i (p ∷ packets) (record s {
    states = insert i running s.states;
    held = insert i [] s.held;
    trace = s.trace ++ net_release i (length (p ∷ packets)) ∷ [];
  })

  set_state-woken :
      (i : NodeId) (packets : List (NodeId × M)) (s : SimNetwork A M R)
      → lookup i s.states ≡ some hung
      → lookup i s.held ≡ some packets
      → set_state draws arrival i running s ≡ (ok tt, woken i packets s)
  unfolding set_state after_change release gets modify pure ◌>>=◌
  set_state-woken i packets s hangs waits =
      let up : SimNetwork A M R = record s { states = insert i running s.states } in
      at_key-found (lookup i s.states) hung
        (λ previous.
          modify (λ n. record n { states = insert i running n.states })
          >> after_change draws arrival i previous running)
        s hangs
      ∙ at_key-found (lookup i s.held) packets (release_all draws arrival i) up waits
      ∙ release_all-woken i packets s

  waking-Added :
      (i : NodeId) (packets : List (NodeId × M)) (c : SimClock A)
      → Added arrival i
          (held_events arrival i c.now c.queue.next_seq packets)
          c
          (wake_all arrival i packets c)
  waking-Added i packets c =
      let at_once : c.now + 0 ≡ c.now = omega arith in
      subst
        (λ now.
          Added arrival i (held_events arrival i now c.queue.next_seq packets) c
            (wake_all arrival i packets c))
        at_once (wake_all-Added arrival i packets c)

  woken-Woken :
      (i : NodeId) (packets : List (NodeId × M)) (s : SimNetwork A M R)
      → lookup i s.held ≡ some packets
      → Woken i packets s (woken i packets s)
  unfolding woken wake_all
  woken-Woken i [] s waits = record {
    up = ground (arith, lookup-insert i i running s.states);
    emptied = waits;
    others = λ j apart. refl;
    added = waking-Added i [] s.clock;
    same_calls = refl;
    same_delivered = refl;
    same_dropped = refl;
  }
  woken-Woken i (p ∷ packets) s waits = record {
    up = ground (arith, lookup-insert i i running s.states);
    emptied = ground (arith, lookup-insert i i [] s.held);
    others = λ j apart. ground (arith, lookup-insert i j [] s.held, apart);
    added = waking-Added i (p ∷ packets) s.clock;
    same_calls = refl;
    same_delivered = refl;
    same_dropped = refl;
  }

  -- When a node that hung is set running again, the call returns, and nothing that waited for it is
  -- lost or handed over at once: each packet becomes a live event of the current tick, their numbers
  -- ascend in the order in which the packets arrived, and no other event is put into the queue or
  -- taken from it. Nothing waits for the node any more, and what waits for the other nodes stays.
  pub set_state-Woken :
      (i : NodeId) (packets : List (NodeId × M)) (s : SimNetwork A M R)
      → lookup i s.states ≡ some hung
      → lookup i s.held ≡ some packets
      → (t : SimNetwork A M R) × (set_state draws arrival i running s ≡ (ok tt, t))
        × Woken i packets s t
  set_state-Woken i packets s hangs waits =
      (woken i packets s, set_state-woken i packets s hangs waits, woken-Woken i packets s waits)
