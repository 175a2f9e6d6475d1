-- ===== src/Log/Contiguous.antt =====
-- The invariant of the log: the entry at position i has index i. Every operation keeps it, and
-- under it the operations read and cut where the source says.
use ground_hog.Prelude.{
  ℕ, zero, suc, ◌+◌, ◌-◌, ◌<◌, ◌≤◌, ◌≡◌, refl, List, [], ◌∷◌, ◌++◌, Option, none, some, true, false,
  arith, length, get_elem?, take, last?, ◌==◌, Bool-cases, inl, inr,
}
use ground_hog.Prelude.Outcome.{ok, raised, index_error}
use ground_hog.Kv.{Command}
use ground_hog.Log.{
  LogEntry, RaftLog, last_index, has_entry, entry_at, append, truncate_from, create,
  check_contiguous, raft_log, Index, Term,
}

-- The entries have the indices `first`, `first + 1`, and so on.
abbrev pub ContiguousFrom : ℕ → List LogEntry → Type 0
ContiguousFrom first [] = Unit
ContiguousFrom first (e ∷ es) = (e.index ≡ first) × ContiguousFrom (suc first) es

abbrev pub IsContiguous : RaftLog → Type 0
IsContiguous = ContiguousFrom 1

last_of :
    (first : ℕ) (e : LogEntry) (es : List LogEntry)
    → ContiguousFrom first (e ∷ es)
    → (l : LogEntry) × (last? (e ∷ es) ≡ some l) × (l.index ≡ first + length es)
last_of first e [] h = (e, refl, omega arith)
last_of first e (f ∷ es) h = let (l, p, q) = last_of (suc first) f es h.1 in (l, p, omega arith)

-- The last index is the number of entries.
pub last_index-length : (log : RaftLog) → IsContiguous log → last_index log ≡ length log
unfolding last_index
last_index-length [] h = refl
last_index-length (e ∷ es) h = let (l, p, q) = last_of 1 e es h in rw (p, last_index) (omega arith)

ContiguousFrom-append :
    (first : ℕ) (xs ys : List LogEntry)
    → ContiguousFrom first xs
    → ContiguousFrom (first + length xs) ys
    → ContiguousFrom first (xs ++ ys)
ContiguousFrom-append first [] ys h k = let same : first + 0 ≡ first = omega arith in rw same at k
ContiguousFrom-append first (x ∷ xs) ys h k =
    let same : first + suc (length xs) ≡ suc first + length xs = omega arith in
    (h.0, ContiguousFrom-append (suc first) xs ys h.1 (rw same at k))

pub snoc-IsContiguous :
    (log : RaftLog) (e : LogEntry)
    → IsContiguous log
    → e.index ≡ last_index log + 1
    → IsContiguous (log ++ e ∷ [])
snoc-IsContiguous log e h p =
    ContiguousFrom-append 1 log (e ∷ []) h (omega (arith, last_index-length log h), tt)

-- An append to a contiguous log leaves a contiguous log, also where it raises half way.
pub append-IsContiguous :
    (es : List LogEntry) (log : RaftLog) → IsContiguous log → IsContiguous (append es log).1
unfolding append
append-IsContiguous [] log h = h
append-IsContiguous (e ∷ es) log h = elim (Bool-cases (e.index == last_index log + 1)) [
  | inl next ↦
      rw next (append-IsContiguous es (log ++ e ∷ []) (snoc-IsContiguous log e h (ground arith)))
  | inr gap ↦ rw gap h
]

ContiguousFrom-take :
    (n first : ℕ) (xs : List LogEntry) → ContiguousFrom first xs → ContiguousFrom first (take n xs)
ContiguousFrom-take zero first xs h = tt
ContiguousFrom-take (suc n) first [] h = tt
ContiguousFrom-take (suc n) first (x ∷ xs) h = (h.0, ContiguousFrom-take n (suc first) xs h.1)

pub truncate_from-IsContiguous :
    (index : Index) (log cut : RaftLog)
    → IsContiguous log
    → truncate_from index log ≡ ok cut
    → IsContiguous cut × (cut ≡ take (index - 1) log)
unfolding truncate_from
truncate_from-IsContiguous index log cut h e =
    let same : cut ≡ take (index - 1) log = ground arith in
    (rw same (ContiguousFrom-take (index - 1) 1 log h), same)

-- The entry that `create` builds is always accepted by `append`.
pub append-create :
    (term : Term) (c : Command) (log : RaftLog)
    → append (create term c log ∷ []) log ≡ (ok tt, log ++ create term c log ∷ [])
unfolding append create
append-create term c log = ground arith

get_elem?-contiguous :
    (first i : ℕ) (xs : List LogEntry)
    → ContiguousFrom first xs
    → i < length xs
    → (e : LogEntry) × (get_elem? xs i ≡ some e) × (e.index ≡ first + i)
get_elem?-contiguous first i [] h lt = absurd (omega arith)
get_elem?-contiguous first zero (x ∷ xs) h lt = (x, refl, omega arith)
get_elem?-contiguous first (suc i) (x ∷ xs) h lt =
    let (e, p, q) = get_elem?-contiguous (suc first) i xs h.1 (omega arith) in (e, p, omega arith)

-- In a contiguous log, `entry_at` returns the entry of an index of at least 1 where `has_entry`
-- says that the log has it.
pub entry_at-found :
    (log : RaftLog) (i : Index)
    → IsContiguous log
    → 1 ≤ i
    → has_entry log i ≡ true
    → (e : LogEntry) × (entry_at log i ≡ ok e) × (e.index ≡ i)
unfolding entry_at has_entry
entry_at-found log i h pos found =
    let (e, p, q) =
      get_elem?-contiguous 1 (i - 1) log h (ground (arith, last_index-length log h)) in
    (e, ground arith, omega arith)

pub entry_at-missing :
    (log : RaftLog) (i : Index) → has_entry log i ≡ false → entry_at log i ≡ raised index_error
unfolding entry_at has_entry
entry_at-missing log i missing = ground arith

-- The constructor accepts a list of entries exactly if it is contiguous, and keeps it as it is.
check-ContiguousFrom :
    (k : ℕ) (es : List LogEntry) → check_contiguous k es ≡ ok tt → ContiguousFrom k es
unfolding check_contiguous
check-ContiguousFrom k [] h = tt
check-ContiguousFrom k (e ∷ es) h =
    let same : k + 1 ≡ suc k = omega arith in
    (ground arith, rw same at (check-ContiguousFrom (k + 1) es (ground arith)))

ContiguousFrom-check :
    (k : ℕ) (es : List LogEntry) → ContiguousFrom k es → check_contiguous k es ≡ ok tt
unfolding check_contiguous
ContiguousFrom-check k [] h = refl
ContiguousFrom-check k (e ∷ es) h =
    let same : suc k ≡ k + 1 = omega arith in
    ground (arith, ContiguousFrom-check (k + 1) es (rw same at h.1))

pub raft_log-contiguous : (es : List LogEntry) → IsContiguous es → raft_log es ≡ ok es
unfolding raft_log
raft_log-contiguous es h = rw (ContiguousFrom-check 1 es h)

-- A list of entries that the constructor of the log accepts is contiguous from index 1.
pub raft_log-IsContiguous : (es log : List LogEntry) → raft_log es ≡ ok log → IsContiguous log
unfolding raft_log
raft_log-IsContiguous es log h =
    let same : log ≡ es = ground arith in rw same (check-ContiguousFrom 1 es (ground arith))

-- What `entry_at` finds stands in the list one place before.
pub entry_at-get_elem? :
    (log : RaftLog) (i : Index) (e : LogEntry)
    → entry_at log i ≡ ok e
    → get_elem? log (i - 1) ≡ some e
unfolding entry_at
entry_at-get_elem? log i e h = go (get_elem? log (i - 1)) refl
  where
    go : (o : Option LogEntry) → get_elem? log (i - 1) ≡ o → o ≡ some e
    go none p = absurd (ground (arith, h, p))
    go (some f) p = ground (arith, h, p)
