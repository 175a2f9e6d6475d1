-- ===== src/Faults/Sides.antt =====
-- The two sides of a partition, and the injector's events.
use ground_hog.Prelude.{
  ℕ, zero, suc, ◌+◌, ◌-◌, ◌≤◌, ◌≡◌, refl, ◌∙◌, ap, ◌⊎◌, List, [], ◌∷◌, ◌++◌, Option, none, some,
  arith, Option-cases, inl, inr, length, length-append, map, Memᴰ,
}
use mathlib.Core.List.Memᴰ
use ground_hog.Prelude.Outcome.{ok, raised, index_error}
use ground_hog.Prelude.Exec.{pure, raise}
use ground_hog.Prelude.Sort.{sorted_items, length-sorted_items, sorted_items-Mem}
use ground_hog.Prelude.Steps.{bind-ok_elim}
use ground_hog.Clock.{SimClock, IsOnTime, after-IsOnTime}
use ground_hog.Types.{NodeId}
use ground_hog.Faults.{
  FaultAction, FaultSchedule, PartitionEpisode, OutageEpisode, FaultDraws, pop_at, id_items,
  sorted_ids, choose, split, put_at, arm_partitions, arm_outages, arm, fault_name,
}
use ground_hog.Faults.Episodes.{DrawsInRange}

-- What is taken out, and what is left.
record Taken (i : ℕ) (xs : List NodeId) (y : NodeId) (ys : List NodeId) : Type 0 where
  pub one_less : length xs ≡ suc (length ys)
  pub either : (z : NodeId) → Memᴰ z xs → (z ≡ y) ⊎ Memᴰ z ys

pop_at-Taken :
    (i : ℕ) (xs : List NodeId) (y : NodeId) (ys : List NodeId)
    → pop_at i xs ≡ some (y, ys)
    → Taken i xs y ys
pop_at-Taken i [] y ys e = cc
pop_at-Taken zero (x ∷ xs) y ys e =
    let first : x ≡ y = cc in
    let left : xs ≡ ys = cc in
    record {
      one_less = ap (λ l. suc (length l)) left;
      either = λ z m. elim (Memᴰ.cases_cons m) [
        | inl here ↦ inl (here ∙ first)
        | inr below ↦ inr (rw left at below)
      ];
    }
pop_at-Taken (suc i) (x ∷ xs) y ys e = go (pop_at i xs) e (λ v vs k. pop_at-Taken i xs v vs k)
  where
    go :
        (o : Option (NodeId × List NodeId))
        → (let p : Option (NodeId × List NodeId) = elim o [
          | none ↦ none
          | some (v, vs) ↦ some (v, x ∷ vs)
        ] in
            p)
          ≡ some (y, ys)
        → ((v : NodeId) (vs : List NodeId) → o ≡ some (v, vs) → Taken i xs v vs)
        → Taken (suc i) (x ∷ xs) y ys
    go none h k = cc
    go (some (v, vs)) h k =
        let taken = k v vs refl in
        let first : v ≡ y = cc in
        let left : x ∷ vs ≡ ys = cc in
        record {
          one_less = ap suc taken.one_less ∙ ap (λ l. suc (length l)) left;
          either = λ z m. elim (Memᴰ.cases_cons m) [
            | inl here ↦ inr (rw (← left) (Memᴰ.head here))
            | inr below ↦ elim (taken.either z below) [
              | inl same ↦ inl (same ∙ first)
              | inr there ↦ inr (rw (← left) (Memᴰ.tail there))
            ]
          ];
        }

module _ {R : Type 0} (draws : FaultDraws R) where
  -- What the loop of the split leaves: the sizes, and where each node went.
  record Chosen (size : ℕ) (pool chosen : List NodeId) (sides : List NodeId × List NodeId)
      : Type 0 where
    pub picked : length sides.0 ≡ length chosen + size
    pub left : length sides.1 + size ≡ length pool
    pub somewhere : (z : NodeId) → Memᴰ z chosen ⊎ Memᴰ z pool → Memᴰ z sides.0 ⊎ Memᴰ z sides.1

  choose-Chosen :
      (size : ℕ) (pool chosen : List NodeId) (s t : R) (sides : List NodeId × List NodeId)
      → choose draws size pool chosen s ≡ (ok sides, t)
      → Chosen size pool chosen sides
  unfolding choose pure raise
  choose-Chosen zero pool chosen s t sides e =
      let same : (chosen, pool) ≡ sides =
        let r : ok (chosen, pool) ≡ ok sides = ap (λ r. r.0) e in cc in
      rw (← same) (record { picked = omega arith; left = omega arith; somewhere = λ z m. m })
  choose-Chosen (suc size) pool chosen s t sides e =
      bind-ok_elim (draws.below (length pool)) _ s e λ i a drawn rest.
        elim (Option-cases (pop_at i pool)) [
          | inl out ↦
              let told : raised index_error ≡ ok sides = ap (λ r. r.0) (rw out at rest) in cc
          | inr ((x, less), popped) ↦
              let taken = pop_at-Taken i pool x less popped in
              let more = choose-Chosen size less (chosen ++ x ∷ []) a t sides (rw popped at rest) in
              record {
                picked = omega (arith, more.picked, length-append chosen (x ∷ []));
                left = omega (arith, more.left, taken.one_less);
                somewhere = λ z m. more.somewhere z (elim m [
                  | inl before ↦ inl (Memᴰ.append_left (x ∷ []) before)
                  | inr there ↦ elim (taken.either z there) [
                    | inl here ↦ inl (Memᴰ.append_right chosen (Memᴰ.head here))
                    | inr later ↦ inr later
                  ]
                ]);
              }
        ]

length-ids : (l : List (NodeId × Unit {0})) → length (map (λ p. p.0) l) ≡ length l
length-ids [] = refl
length-ids (p ∷ l) = ap suc (length-ids l)

length-pairs : (l : List NodeId) → length (id_items l) ≡ length l
length-pairs [] = refl
length-pairs (i ∷ l) = ap suc (length-pairs l)

length-sorted_ids : (l : List NodeId) → length (sorted_ids l) ≡ length l
unfolding sorted_ids
length-sorted_ids l =
    length-ids (sorted_items (id_items l)) ∙ length-sorted_items (id_items l) ∙ length-pairs l

ids-Mem : (z : NodeId) (l : List (NodeId × Unit {0})) → Memᴰ (z, tt) l → Memᴰ z (map (λ p. p.0) l)
ids-Mem z [] m = absurd (Memᴰ.not-nil m)
ids-Mem z (p ∷ l) (Memᴰ.head same) = Memᴰ.head (ap (λ p. p.0) same)
ids-Mem z (p ∷ l) (Memᴰ.tail m) = Memᴰ.tail (ids-Mem z l m)

pairs-Mem : (z : NodeId) (l : List NodeId) → Memᴰ z l → Memᴰ (z, tt) (id_items l)
pairs-Mem z [] m = absurd (Memᴰ.not-nil m)
pairs-Mem z (i ∷ l) (Memᴰ.head same) =
    let item : NodeId → NodeId × Unit {0} = λ i. (i, tt) in Memᴰ.head (ap item same)
pairs-Mem z (i ∷ l) (Memᴰ.tail m) = Memᴰ.tail (pairs-Mem z l m)

sorted_ids-Mem : (z : NodeId) (l : List NodeId) → Memᴰ z l → Memᴰ z (sorted_ids l)
unfolding sorted_ids
sorted_ids-Mem z l m = ids-Mem z _ (sorted_items-Mem (id_items l) (z, tt) (pairs-Mem z l m))

-- Two sides of the nodes: both have a node, together as many as there are, and every node is on one
-- of them.
pub record Sides (node_ids side_a side_b : List NodeId) : Type 0 where
  pub some_a : 1 ≤ length side_a
  pub some_b : 1 ≤ length side_b
  pub as_many : length side_a + length side_b ≡ length node_ids
  pub somewhere : (z : NodeId) → Memᴰ z node_ids → Memᴰ z side_a ⊎ Memᴰ z side_b

-- Where the draws lie in their ranges and there are two nodes or more, a split that returns cuts them
-- in two sides, neither of them empty.
pub split-Sides :
    {R : Type 0} (draws : FaultDraws R) (node_ids side_a side_b : List NodeId) (s t : R)
    → DrawsInRange draws
    → 2 ≤ length node_ids
    → split draws node_ids s ≡ (ok (side_a, side_b), t)
    → Sides node_ids side_a side_b
unfolding split pure
split-Sides draws node_ids side_a side_b s t law enough e =
    bind-ok_elim (draws.between 1 (length node_ids - 1)) _ s e λ size a one e1.
      bind-ok_elim (choose draws size node_ids []) _ a e1 λ sides b two e2.
        let bounds = law.between_in 1 (length node_ids - 1) size s a one in
        let chosen = choose-Chosen draws size node_ids [] a b sides two in
        let answer : ok (sorted_ids sides.0, sorted_ids sides.1) ≡ ok (side_a, side_b) =
          ap (λ r. r.0) e2 in
        let first : sorted_ids sides.0 ≡ side_a = cc in
        let second : sorted_ids sides.1 ≡ side_b = cc in
        let many_a = length-sorted_ids sides.0 in
        let many_b = length-sorted_ids sides.1 in
        rw (← first, ← second)
          (record {
            some_a = omega (arith, many_a, chosen.picked, bounds.0);
            some_b = omega (arith, many_b, chosen.left, bounds.1);
            as_many = omega (arith, many_a, many_b, chosen.left, chosen.picked);
            somewhere = λ z m. elim (chosen.somewhere z (inr m)) [
              | inl on_a ↦ inl (sorted_ids-Mem z sides.0 on_a)
              | inr on_b ↦ inr (sorted_ids-Mem z sides.1 on_b)
            ];
          })

module _ {A : Type 0} (inject : FaultAction → A) where
  arm_partitions-IsOnTime :
      (es : List PartitionEpisode) (c : SimClock A)
      → IsOnTime c
      → IsOnTime (arm_partitions inject es c)
  unfolding arm_partitions put_at
  arm_partitions-IsOnTime [] c h = h
  arm_partitions-IsOnTime (e ∷ es) c h =
      arm_partitions-IsOnTime es _
        (after-IsOnTime _ _ fault_name none _ (after-IsOnTime _ _ fault_name none c h))

  arm_outages-IsOnTime :
      (es : List OutageEpisode) (c : SimClock A) → IsOnTime c → IsOnTime (arm_outages inject es c)
  unfolding arm_outages put_at
  arm_outages-IsOnTime [] c h = h
  arm_outages-IsOnTime (e ∷ es) c h =
      arm_outages-IsOnTime es _
        (after-IsOnTime _ _ fault_name none _ (after-IsOnTime _ _ fault_name none c h))

  -- Arming a schedule sets no event into the past, whenever it is done.
  pub arm-IsOnTime :
      (schedule : FaultSchedule) (c : SimClock A) → IsOnTime c → IsOnTime (arm inject schedule c)
  unfolding arm
  arm-IsOnTime schedule c h =
      arm_outages-IsOnTime schedule.outages _ (arm_partitions-IsOnTime schedule.partitions c h)
