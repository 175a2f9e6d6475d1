-- ===== src/Tests/Draws.antt =====
-- Runs of the source of randomness, over a generator that counts.
use ground_hog.Prelude.{ℕ, ◌+◌, ◌%◌, ◌≤◌, ◌≡◌, Option, refl, some, arith}
use ground_hog.Prelude.Outcome.{ok}
use ground_hog.Rng.{Generator, Rng, bit_length, draw_below, below, between}
use ground_hog.Rng.Bounds.{between-InRange}
use ground_hog.Rng.Rejection.{FirstAccepted, below-FirstAccepted}

abbrev counter : Generator ℕ
counter = record { getrandbits = λ bits n. (n, n + 1) }

abbrev counting : Rng ℕ
counting = record { seed = 7; calls = 0; random = 2 }

abbrev counted : Rng ℕ
counted = record { seed = 7; calls = 1; random = 3 }

drawn_between : between counter 5 10 15 counting ≡ (ok (some 12), counted)
unfolding between below draw_below
drawn_between = refl

between-InRange_example : (10 ≤ 12) × (12 ≤ 15)
between-InRange_example = between-InRange counter 5 10 15 counting counted 12 drawn_between

-- The bound is 6: the source that counts from 6 gives 6, 7 and then, as it starts again at 8, 0.
abbrev wrapping : Generator ℕ
wrapping = record { getrandbits = λ bits n. (n % 8, n + 1) }

abbrev at_six : Rng ℕ
at_six = record { seed = 7; calls = 0; random = 6 }

below-FirstAccepted_example :
    (o : Option ℕ) × (g : ℕ) × (below wrapping 5 6 at_six
      ≡ (ok o, record { seed = 7; calls = 1; random = g }))
    × FirstAccepted wrapping 3 6 6 o g
unfolding bit_length
below-FirstAccepted_example =
    below-FirstAccepted wrapping 2 5 6 at_six (omega arith) (omega arith) (omega arith)
