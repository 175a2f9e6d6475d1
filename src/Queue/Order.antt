-- ===== src/Queue/Order.antt =====
-- The queue gives out its events in the order of their ticks, and of two at the same tick the one that
-- was scheduled first.
use mathlib.Core.Path.{subst}
use mathlib.Core.List.Memᴰ
use ground_hog.Prelude.{
  ltb, ℕ, ◌+◌, ◌<◌, ◌≡◌, refl, sym, ◌∙◌, List, [], ◌∷◌, Option, none, some, true, false, Memᴰ, inl,
  inr, ◌⊎◌, arith, Bool-cases, All,
}
use ground_hog.Prelude.Dict.{Text, nat_eq, contains, erase}
use ground_hog.Types.{NodeId, Tick}
use ground_hog.Queue.{Event, EventQueue, precedes, push, schedule, pop_from, pop}

module _ {A : Type 0} where
  abbrev pub Precedes : Event A → Event A → Type 0
  Precedes e f = (e.tick < f.tick) ⊎ ((e.tick ≡ f.tick) × (e.seq < f.seq))

  abbrev pub Sorted : List (Event A) → Type 0
  Sorted [] = Unit
  Sorted (e ∷ h) = All (Precedes e) h × Sorted h

  -- The heap is in order, and every number in it has been given out.
  pub record IsOrdered (q : EventQueue A) : Type 0 where
    pub sorted : Sorted q.heap
    pub given : All (λ e. e.seq < q.next_seq) q.heap

  Precedes-trans : (e f g : Event A) → Precedes e f → Precedes f g → Precedes e g
  Precedes-trans e f g (inl p) (inl q) = inl (omega arith)
  Precedes-trans e f g (inl p) (inr q) = inl (omega (arith, q.0))
  Precedes-trans e f g (inr p) (inl q) = inl (omega (arith, p.0))
  Precedes-trans e f g (inr p) (inr q) = inr (omega (arith, p.0, q.0), omega (arith, p.1, q.1))

  All-Precedes :
      (e f : Event A) (h : List (Event A)) → Precedes e f → All (Precedes f) h → All (Precedes e) h
  All-Precedes e f [] p a = tt
  All-Precedes e f (g ∷ h) p a = (Precedes-trans e f g p a.0, All-Precedes e f h p a.1)

  precedes-Precedes : (e f : Event A) → precedes e f ≡ true → Precedes e f
  precedes-Precedes e f h = elim (Bool-cases (ltb e.tick f.tick)) [
    | inl sooner ↦ inl (ground arith)
    | inr later ↦ inr (ground arith, ground arith)
  ]

  -- An event that does not come before one with a smaller number comes after it.
  precedes-later : (e f : Event A) → precedes e f ≡ false → f.seq < e.seq → Precedes f e
  precedes-later e f h s = elim (Bool-cases (ltb f.tick e.tick)) [
    | inl sooner ↦ inl (ground arith)
    | inr same ↦ inr (ground arith, s)
  ]

  pub All-push :
      (P : Event A → Type 0) (e : Event A) (h : List (Event A)) → P e → All P h → All P (push e h)
  unfolding push
  All-push P e [] p a = (p, tt)
  All-push P e (f ∷ h) p a = elim (Bool-cases (precedes e f)) [
    | inl first ↦ rw first (p, a)
    | inr after ↦ rw after (a.0, All-push P e h p a.1)
  ]

  push-Sorted :
      (e : Event A) (h : List (Event A)) → All (λ f. f.seq < e.seq) h → Sorted h → Sorted (push e h)
  unfolding push
  push-Sorted e [] s a = (tt, tt)
  push-Sorted e (f ∷ h) s a = elim (Bool-cases (precedes e f)) [
    | inl first ↦
        rw first
          ((precedes-Precedes e f first, All-Precedes e f h (precedes-Precedes e f first) a.0), a)
    | inr after ↦
        rw after
          (All-push (Precedes f) e h (precedes-later e f after s.0) a.0, push-Sorted e h s.1 a.1)
  ]

  All-later : (n : ℕ) (h : List (Event A)) → All (λ e. e.seq < n) h → All (λ e. e.seq < n + 1) h
  All-later n [] a = tt
  All-later n (e ∷ h) a = (omega (arith, a.0), All-later n h a.1)

  -- Scheduling an event at any tick keeps a queue in order that is in order: the heap is sorted by
  -- tick and then by number, and every number in it has been given out.
  pub schedule-IsOrdered :
      (tick : Tick) (kind : Text) (action : A) (actor : Option NodeId) (q : EventQueue A)
      → IsOrdered q
      → IsOrdered (schedule tick kind action actor q).1
  unfolding schedule
  schedule-IsOrdered tick kind action actor q h =
      let e : Event A = record {
        tick = tick;
        seq = q.next_seq;
        kind = kind;
        action = action;
        actor = actor;
      } in
      record {
        sorted = push-Sorted e q.heap h.given h.sorted;
        given =
            All-push (λ f. f.seq < q.next_seq + 1) e q.heap (omega arith)
              (All-later q.next_seq q.heap h.given);
      }

  -- What `pop` gave, and what it left: the event was live and comes before all that is left; no
  -- other live event is lost and none is made up; only the event's number is struck off the pending
  -- ones.
  pub record Popped (q : EventQueue A) (e : Event A) (q' : EventQueue A) : Type 0 where
    pub live : contains e.seq q.pending ≡ true
    pub queued : Memᴰ e q.heap
    pub first : All (Precedes e) q'.heap
    pub ordered : IsOrdered q'
    pub kept :
        (f : Event A) → Memᴰ f q.heap → contains f.seq q.pending ≡ true → (f ≡ e) ⊎ Memᴰ f q'.heap
    pub only : (f : Event A) → Memᴰ f q'.heap → Memᴰ f q.heap
    pub struck_off : q'.pending ≡ erase e.seq q.pending
    pub same_numbers : q'.next_seq ≡ q.next_seq

  -- What it means that `pop` gave nothing: no event of the heap was live.
  pub record Drained (q q' : EventQueue A) : Type 0 where
    pub no_live : (f : Event A) → Memᴰ f q.heap → contains f.seq q.pending ≡ false
    pub left : record q { heap = [] } ≡ q'

  abbrev pub Gave : EventQueue A → Option (Event A) → EventQueue A → Type 0
  Gave q none q' = Drained q q'
  Gave q (some e) q' = Popped q e q'

  -- A cancelled event at the head makes no difference.
  skip-Gave :
      (f : Event A) (h : List (Event A)) (q q' : EventQueue A) (o : Option (Event A))
      → contains f.seq q.pending ≡ false
      → Gave (record q { heap = h }) o q'
      → Gave (record q { heap = f ∷ h }) o q'
  skip-Gave f h q q' none cancelled g = record {
    no_live = λ k m. elim (Memᴰ.cases_cons m) [
      | inl here ↦ rw here cancelled
      | inr below ↦ g.no_live k below
    ];
    left = g.left;
  }
  skip-Gave f h q q' (some e) cancelled g = record {
    live = g.live;
    queued = Memᴰ.tail g.queued;
    first = g.first;
    ordered = g.ordered;
    kept = λ k m live. elim (Memᴰ.cases_cons m) [
      | inl here ↦
          let dead : contains k.seq q.pending ≡ false = rw here cancelled in
          let told : true ≡ false = sym live ∙ dead in cc
      | inr below ↦ g.kept k below live
    ];
    only = λ k m. Memᴰ.tail (g.only k m);
    struck_off = g.struck_off;
    same_numbers = g.same_numbers;
  }

  -- A live event at the head of the heap.
  first-Popped :
      (f : Event A) (h : List (Event A)) (q : EventQueue A)
      → Sorted (f ∷ h)
      → All (λ e. e.seq < q.next_seq) (f ∷ h)
      → contains f.seq q.pending ≡ true
      → Popped
          (record q { heap = f ∷ h })
          f
          (record q { heap = h; pending = erase f.seq q.pending })
  first-Popped f h q s g live = record {
    live = live;
    queued = Memᴰ.head refl;
    first = s.0;
    ordered = record { sorted = s.1; given = g.1 };
    kept = λ k m live. elim (Memᴰ.cases_cons m) [ inl here ↦ inl here | inr below ↦ inr below ];
    only = λ k m. Memᴰ.tail m;
    struck_off = refl;
    same_numbers = refl;
  }

  pop_from-Gave :
      (h : List (Event A)) (q : EventQueue A)
      → Sorted h
      → All (λ e. e.seq < q.next_seq) h
      → Gave (record q { heap = h }) (pop_from h q).0 (pop_from h q).1
  unfolding pop_from
  pop_from-Gave [] q s g = record { no_live = λ f m. absurd (Memᴰ.not-nil m); left = refl }
  pop_from-Gave (f ∷ h) q s g = elim (Bool-cases (contains f.seq q.pending)) [
    | inl live ↦ rw live (first-Popped f h q s g live)
    | inr cancelled ↦
        rw cancelled
          (skip-Gave f h q (pop_from h q).1 (pop_from h q).0 cancelled (pop_from-Gave h q s.1 g.1))
  ]

  -- An event that `pop` gives from a queue in order was not cancelled and comes before every event
  -- that is left in the heap, which is in order again. Of the events of the heap that were not
  -- cancelled only this one is taken out, and nothing is put in. Where `pop` gives nothing, every
  -- event of the heap had been cancelled.
  pub pop-Gave :
      (q q' : EventQueue A) (o : Option (Event A)) → IsOrdered q → pop q ≡ (o, q') → Gave q o q'
  unfolding pop
  pop-Gave q q' o h p = subst (λ r. Gave q r.0 r.1) p (pop_from-Gave q.heap q h.sorted h.given)
