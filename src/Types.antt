-- ===== src/Types.antt =====
-- groundhog/types.py: the scalar types. They are plain aliases of int there, and of ℕ here: no
-- value of the program is negative.
use ground_hog.Prelude.{ℕ, ◌*◌}

abbrev pub NodeId : Type 0
NodeId = ℕ

abbrev pub Term : Type 0
Term = ℕ

abbrev pub Index : Type 0
Index = ℕ

-- Virtual time, in microseconds.
abbrev pub Tick : Type 0
Tick = ℕ

abbrev pub millisecond : Tick
millisecond = 1000

abbrev pub second : Tick
second = 1000 * millisecond
