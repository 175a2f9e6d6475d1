-- ===== src/Invariants/Machine.antt =====
-- groundhog/invariants/safety.py, `class StateMachineSafety`.
use ground_hog.Prelude.{
  ◌≤◌, ◌≡◌, refl, sym, ◌∙◌, ap, List, [], Option, none, some, ◌&&◌, ◌==◌, Memᴰ, if◌then◌else◌,
  arith, Bool-cases, Option-cases, inl, inr, range, range-Mem,
}
use ground_hog.Prelude.Dict.{Dict, nat_eq, lookup, insert, lookup-insert}
use ground_hog.Prelude.Outcome.{ok}
use ground_hog.Prelude.Exec.{Exec, pure, gets, lift, modify, ◌>>=◌, ◌>>◌}
use ground_hog.Prelude.Steps.{Steps, step_rules, lift-ok_elim}
use ground_hog.Prelude.Watch.{Known, insert-Known, first_of, Steps-first_of, silent-All}
use ground_hog.Log.{LogEntry, has_entry, entry_at, last_index}
use ground_hog.Node.State.{RaftNode}
use ground_hog.Types.{NodeId, Index}
use ground_hog.Invariants.Equality.{command_eq, command_eq_iff}
use ground_hog.Invariants.View.{
  ClusterView, Problem, AppliedEntry, applied_past_log, applied_differently, sorted_nodes,
  sorted_nodes-Mem,
}

-- `StateMachineSafety.applied`
abbrev pub StateMachineSafety : Type 0
StateMachineSafety = Dict Index AppliedEntry

-- The comparison with the entry that was applied first at the index.
compare_applied :
    NodeId → Index → LogEntry → Option AppliedEntry → Exec StateMachineSafety (Option Problem)
compare_applied node index entry none = do
  modify (
      insert index
        (record { index = index; term = entry.term; command = entry.command; by = node }))
  pure none
compare_applied node index entry (some first) =
    if first.term == entry.term && command_eq first.command entry.command
    then pure none
    else pure (some (applied_differently index first node entry))

compare_at : NodeId → Index → LogEntry → Exec StateMachineSafety (Option Problem)
unfolding compare_applied
compare_at node index entry = do
  first ← gets (λ applied. lookup index applied)
  compare_applied node index entry first

module _ {S R : Type 0} where
  -- The body of the inner loop.
  check_applied_at : RaftNode S R → Index → Exec StateMachineSafety (Option Problem)
  unfolding compare_at
  check_applied_at node index =
      if has_entry node.log index
      then lift (entry_at node.log index) >>= compare_at node.node_id index
      else pure (some (applied_past_log node.node_id node.last_applied (last_index node.log)))

  check_applied : RaftNode S R → Exec StateMachineSafety (Option Problem)
  unfolding check_applied_at
  check_applied node = first_of (check_applied_at node) (range 1 node.last_applied)

  -- `StateMachineSafety.observe`
  unfoldable pub check_machine : ClusterView S R → Exec StateMachineSafety (Option Problem)
  unfolding check_applied
  check_machine view = first_of check_applied (sorted_nodes view)

Steps-compare_at : (n : NodeId) (i : Index) (e : LogEntry) → Steps Known (compare_at n i e)
unfolding compare_at compare_applied gets modify pure ◌>>=◌
Steps-compare_at n i e = record {
  at = λ s. elim (Option-cases (lookup i s)) [
    | inl fresh ↦ rw fresh (insert-Known i _ s fresh)
    | inr (first, known) ↦
        rw known (elim (Bool-cases (first.term == e.term && command_eq first.command e.command)) [
          | inl same ↦ rw same (λ k v h. h)
          | inr other ↦ rw other (λ k v h. h)
        ])
  ];
}

-- The entry is the one that was applied first at the index.
pub record Recorded (index : Index) (e : LogEntry) (t : StateMachineSafety) : Type 0 where
  pub first : AppliedEntry
  pub found : lookup index t ≡ some first
  pub same_term : first.term ≡ e.term
  pub same_command : first.command ≡ e.command

compare_at-Recorded :
    (n : NodeId) (i : Index) (e : LogEntry) (s t : StateMachineSafety)
    → compare_at n i e s ≡ (ok none, t)
    → Recorded i e t
unfolding compare_at compare_applied gets modify pure ◌>>=◌
compare_at-Recorded n i e s t silent = elim (Option-cases (lookup i s)) [
  | inl fresh ↦
      let first : AppliedEntry = record { index = i; term = e.term; command = e.command; by = n } in
      let stored : insert i first s ≡ t = ap (λ r. r.1) (rw fresh at silent) in
      record {
        first = first;
        found = rw (← stored) (ground (arith, lookup-insert i i first s));
        same_term = refl;
        same_command = refl;
      }
  | inr (first, known) ↦
      elim (Bool-cases (first.term == e.term && command_eq first.command e.command)) [
        | inl same ↦
            let stays : s ≡ t = ap (λ r. r.1) (rw (known, same) at silent) in
            record {
              first = first;
              found = rw (← stays) known;
              same_term = ground arith;
              same_command = ground (arith, command_eq_iff first.command e.command);
            }
        | inr other ↦
            let told : ok (some (applied_differently i first n e)) ≡ ok none =
              ap (λ r. r.0) (rw (known, other) at silent) in
            cc
      ]
]

module _ {S R : Type 0} where
  -- The node's entry at the index is there, and is the one that was applied first.
  record AppliedAt (n : RaftNode S R) (index : Index) (t : StateMachineSafety) : Type 0 where
    pub entry : LogEntry
    pub there : entry_at n.log index ≡ ok entry
    pub recorded : Recorded index entry t

  AppliedAt-keeps :
      (n : RaftNode S R) (i : Index) (s t : StateMachineSafety)
      → ((k : Index) (v : AppliedEntry) → lookup k s ≡ some v → lookup k t ≡ some v)
      → AppliedAt n i s
      → AppliedAt n i t
  AppliedAt-keeps n i s t keeps h = record {
    entry = h.entry;
    there = h.there;
    recorded = record {
      first = h.recorded.first;
      found = keeps i h.recorded.first h.recorded.found;
      same_term = h.recorded.same_term;
      same_command = h.recorded.same_command;
    };
  }

  Steps-check_applied_at : (n : RaftNode S R) (i : Index) → Steps Known (check_applied_at n i)
  unfolding check_applied_at
  Steps-check_applied_at n i = search (step_rules, Steps-compare_at) depth 6

  Steps-check_applied : (n : RaftNode S R) → Steps Known (check_applied n)
  unfolding check_applied
  Steps-check_applied n = Steps-first_of (check_applied_at n) _ (Steps-check_applied_at n)

  check_applied_at-AppliedAt :
      (n : RaftNode S R) (i : Index) (s t : StateMachineSafety)
      → check_applied_at n i s ≡ (ok none, t)
      → AppliedAt n i t
  unfolding check_applied_at pure
  check_applied_at-AppliedAt n i s t e = elim (Bool-cases (has_entry n.log i)) [
    | inl there ↦
        lift-ok_elim (entry_at n.log i) (compare_at n.node_id i) s (rw there at e)
          λ entry found rest. record {
            entry = entry;
            there = found;
            recorded = compare_at-Recorded n.node_id i entry s t rest;
          }
    | inr past ↦
        let told : ok (some (applied_past_log n.node_id n.last_applied (last_index n.log)))
            ≡ ok none =
          ap (λ r. r.0) (rw past at e) in
        cc
  ]

  -- Every applied index of the node is recorded.
  abbrev AllApplied : RaftNode S R → StateMachineSafety → Type 0
  AllApplied n t = (i : Index) → 1 ≤ i → i ≤ n.last_applied → AppliedAt n i t

  check_applied-AllApplied :
      (n : RaftNode S R) (s t : StateMachineSafety)
      → check_applied n s ≡ (ok none, t)
      → AllApplied n t
  unfolding check_applied
  check_applied-AllApplied n s t e i low high =
      silent-All Known (AppliedAt n) (check_applied_at n) (Steps-check_applied_at n)
        (AppliedAt-keeps n) (check_applied_at-AppliedAt n) (range 1 n.last_applied) s t e i
        (range-Mem 1 n.last_applied i low (omega arith))

  Steps-check_machine : (v : ClusterView S R) → Steps Known (check_machine v)
  unfolding check_machine
  Steps-check_machine v = Steps-first_of check_applied (sorted_nodes v) Steps-check_applied

  check_machine-AllApplied :
      (v : ClusterView S R) (s t : StateMachineSafety)
      → check_machine v s ≡ (ok none, t)
      → (n : RaftNode S R) → Memᴰ n (sorted_nodes v)
      → AllApplied n t
  unfolding check_machine
  check_machine-AllApplied v =
      silent-All Known AllApplied check_applied Steps-check_applied
        (λ n s t keeps h i low high. AppliedAt-keeps n i s t keeps (h i low high))
        check_applied-AllApplied (sorted_nodes v)

  -- The nodes' entries at the index are there, with the same term and the same command.
  pub record SameApplied (a b : RaftNode S R) (index : Index) : Type 0 where
    pub left : LogEntry
    pub right : LogEntry
    pub left_there : entry_at a.log index ≡ ok left
    pub right_there : entry_at b.log index ≡ ok right
    pub same_term : left.term ≡ right.term
    pub same_command : left.command ≡ right.command

  -- A checker that stayed silent over a sequence of views has seen no two nodes, in whichever of the
  -- views, that applied different entries at one index: both logs have the entry, with the same
  -- term and the same command.
  pub check_machine-SameApplied :
      (views : List (ClusterView S R)) (applied : StateMachineSafety)
      → first_of check_machine views [] ≡ (ok none, applied)
      → (v w : ClusterView S R) → Memᴰ v views
      → Memᴰ w views
      → (i j : NodeId) (a b : RaftNode S R) → Memᴰ (i, a) v.nodes
      → Memᴰ (j, b) w.nodes
      → (index : Index) → 1 ≤ index
      → index ≤ a.last_applied
      → index ≤ b.last_applied
      → SameApplied a b index
  check_machine-SameApplied views applied e v w mv mw i j a b ma mb index low ha hb =
      let left = seen v mv a (sorted_nodes-Mem v i a ma) index low ha in
      let right = seen w mw b (sorted_nodes-Mem w j b mb) index low hb in
      let first : left.recorded.first ≡ right.recorded.first =
        let one = left.recorded.found in let other = right.recorded.found in cc in
      record {
        left = left.entry;
        right = right.entry;
        left_there = left.there;
        right_there = right.there;
        same_term = sym left.recorded.same_term ∙ ap (λ f. f.term) first ∙ right.recorded.same_term;
        same_command =
            sym left.recorded.same_command
            ∙ ap (λ f. f.command) first
            ∙ right.recorded.same_command;
      }
    where
      seen :
          (v : ClusterView S R)
          → Memᴰ v views
          → (n : RaftNode S R) → Memᴰ n (sorted_nodes v)
          → AllApplied n applied
      seen =
          silent-All Known (λ v t. (n : RaftNode S R) → Memᴰ n (sorted_nodes v) → AllApplied n t)
            check_machine Steps-check_machine
            (λ v s t keeps h n m i low high. AppliedAt-keeps n i s t keeps (h n m i low high))
            check_machine-AllApplied views [] applied e
