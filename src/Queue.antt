-- ===== src/Queue.antt =====
-- groundhog/sim/event.py: the event queue. An event's `detail` only labels the trace and is left out;
-- what an event does when its time comes is any type. `heapq` keeps the heap, of which the code uses
-- that its first entry is the least one: here it is the list of the entries in that order.
pub mod Order
use ground_hog.Prelude.{
  ℕ, ◌+◌, List, [], ◌∷◌, Option, none, some, Bool, ◌&&◌, ◌||◌, ltb, ◌==◌, if◌then◌else◌,
}
use ground_hog.Prelude.Dict.{Dict, Text, nat_eq, contains, insert, erase}
use ground_hog.Types.{NodeId, Tick}

pub record Event (A : Type 0) : Type 0 where
  pub tick : Tick
  pub seq : ℕ
  pub kind : Text
  pub action : A
  pub actor : Option NodeId

pub record EventQueue (A : Type 0) : Type 0 where
  pub heap : List (Event A)
  pub next_seq : ℕ
  pub pending : Dict ℕ (Event A)

module _ {A : Type 0} where
  abbrev pub empty_queue : EventQueue A
  empty_queue = record { heap = []; next_seq = 0; pending = [] }

  -- The order of the entries `(tick, seq, event)`: no two have the same number.
  abbrev pub precedes : Event A → Event A → Bool
  precedes e f = ltb e.tick f.tick || (e.tick == f.tick && ltb e.seq f.seq)

  -- `heappush`
  unfoldable pub push : Event A → List (Event A) → List (Event A)
  push e [] = e ∷ []
  push e (f ∷ h) = let rest = push e h in if precedes e f then e ∷ f ∷ h else f ∷ rest

  -- A tick is a natural number, so the guard against a negative one has nothing to refuse.
  unfoldable pub schedule : Tick → Text → A → Option NodeId → EventQueue A → Event A × EventQueue A
  unfolding push
  schedule tick kind action actor q =
      let event : Event A = record {
        tick = tick;
        seq = q.next_seq;
        kind = kind;
        action = action;
        actor = actor;
      } in
      (
        event,
        record {
          heap = push event q.heap;
          next_seq = q.next_seq + 1;
          pending = insert event.seq event q.pending;
        },
      )

  unfoldable pub cancel : Event A → EventQueue A → Bool × EventQueue A
  cancel event q = (contains event.seq q.pending, record q { pending = erase event.seq q.pending })

  -- The loop of `pop`, over the heap: cancelled events are skipped.
  unfoldable pub pop_from : List (Event A) → EventQueue A → Option (Event A) × EventQueue A
  pop_from [] q = (none, record q { heap = [] })
  pop_from (e ∷ h) q =
      let rest = pop_from h q in
      if contains e.seq q.pending
      then (some e, record q { heap = h; pending = erase e.seq q.pending })
      else rest

  unfoldable pub pop : EventQueue A → Option (Event A) × EventQueue A
  pop q = pop_from q.heap q

  -- `_drop_cancelled_head`
  unfoldable pub drop_cancelled : Dict ℕ (Event A) → List (Event A) → List (Event A)
  drop_cancelled pending [] = []
  drop_cancelled pending (e ∷ h) =
      let rest = drop_cancelled pending h in if contains e.seq pending then e ∷ h else rest

  unfoldable pub peek_tick : EventQueue A → Option Tick × EventQueue A
  peek_tick q =
      let heap = drop_cancelled q.pending q.heap in
      (elim heap [ [] ↦ none | e ∷ _ ↦ some e.tick ], record q { heap = heap })
