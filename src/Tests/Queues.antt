-- ===== src/Tests/Queues.antt =====
-- Runs of the event queue.

use ground_hog.Prelude.{◌≡◌, refl, [], none, some, arith}
use ground_hog.Queue.{Event, EventQueue, empty_queue, push, schedule, cancel, pop_from, pop}
use ground_hog.Prelude.Dict.{nat_eq}
use ground_hog.Prelude.Outcome.{ok}
use ground_hog.Clock.{SimClock, IsOnTime, advance_to, advance_to-IsOnTime}
use ground_hog.Queue.Order.{IsOrdered, Popped, schedule-IsOrdered, pop-Gave}

abbrev late : EventQueue (Unit {0})
late = (schedule 20 [] tt none empty_queue).1

abbrev both : EventQueue (Unit {0})
both = (schedule 10 [] tt none late).1

abbrev rest : EventQueue (Unit {0})
rest = (pop both).1

abbrev early : Event (Unit {0})
early = (schedule 10 [] tt none late).0

empty-IsOrdered : IsOrdered (empty_queue {A = Unit {0}})
empty-IsOrdered = record { sorted = tt; given = tt }

late-IsOrdered : IsOrdered late
late-IsOrdered = schedule-IsOrdered 20 [] tt none empty_queue empty-IsOrdered

both-IsOrdered : IsOrdered both
both-IsOrdered = schedule-IsOrdered 10 [] tt none late late-IsOrdered

popped : pop both ≡ (some early, rest)
unfolding pop pop_from schedule push
popped = refl

pop-Gave_example : Popped both early rest
pop-Gave_example = pop-Gave both rest (some early) both-IsOrdered popped

-- The early event is cancelled, so the late one is given.
abbrev cancelled_rest : EventQueue (Unit {0})
cancelled_rest = (pop (cancel early both).1).1

abbrev late_event : Event (Unit {0})
late_event = (schedule 20 [] tt none empty_queue).0

abbrev clock : SimClock (Unit {0})
clock = record { now = 3; queue = both }

clock-IsOnTime : IsOnTime clock
unfolding schedule push
clock-IsOnTime = record { ordered = both-IsOrdered; ahead = (omega arith, (omega arith, tt)) }

advance_to-IsOnTime_example :
    (advance_to early.tick (record clock { queue = rest })
      ≡ ok (record { now = early.tick; queue = rest }))
    × IsOnTime (record { now = early.tick; queue = rest })
advance_to-IsOnTime_example = advance_to-IsOnTime clock early rest clock-IsOnTime popped
