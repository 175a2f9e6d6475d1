-- ===== src/Invariants/Election.antt =====
-- groundhog/invariants/safety.py, `class ElectionSafety`.
use ground_hog.Prelude.{
  ◌≡◌, ap, List, [], Option, none, some, true, ◌&&◌, ◌==◌, Memᴰ, if◌then◌else◌, arith, Bool-cases,
  Option-cases, inl, inr,
}
use ground_hog.Prelude.Dict.{Dict, nat_eq, lookup, insert, lookup-insert}
use ground_hog.Prelude.Outcome.{ok}
use ground_hog.Prelude.Exec.{Exec, pure, gets, modify, ◌>>=◌, ◌>>◌}
use ground_hog.Prelude.Steps.{Steps}
use ground_hog.Prelude.Watch.{Known, insert-Known, first_of, Steps-first_of, silent-All}
use ground_hog.Node.State.{RaftNode}
use ground_hog.Node.Roles.{is_leader}
use ground_hog.Types.{NodeId, Term}
use ground_hog.Invariants.View
use ground_hog.Invariants.View.{ClusterView, Problem, two_leaders, leaders, leaders-Mem}

-- `ElectionSafety.leaders`
abbrev pub ElectionSafety : Type 0
ElectionSafety = Dict Term NodeId

module _ {S R : Type 0} where
  -- The body of the loop, after `self.leaders.get`.
  meet_leader : RaftNode S R → Option NodeId → Exec ElectionSafety (Option Problem)
  meet_leader node none = do
    modify (λ leaders. insert node.current_term node.node_id leaders)
    pure none
  meet_leader node (some incumbent) =
      if incumbent == node.node_id
      then pure none
      else pure (some (two_leaders node.current_term incumbent node.node_id))

  note_leader : RaftNode S R → Exec ElectionSafety (Option Problem)
  unfolding meet_leader
  note_leader node = do
    known ← gets (λ leaders. lookup node.current_term leaders)
    meet_leader node known

  -- `ElectionSafety.observe`
  unfoldable pub check_election : ClusterView S R → Exec ElectionSafety (Option Problem)
  unfolding note_leader
  check_election view = first_of note_leader (leaders view)

  Steps-note_leader : (n : RaftNode S R) → Steps Known (note_leader n)
  unfolding note_leader meet_leader gets modify pure ◌>>=◌
  Steps-note_leader n = record {
    at = λ s. elim (Option-cases (lookup n.current_term s)) [
      | inl fresh ↦ rw fresh (insert-Known n.current_term n.node_id s fresh)
      | inr (incumbent, known) ↦ rw known (elim (Bool-cases (incumbent == n.node_id)) [
        | inl same ↦ rw same (λ k v h. h)
        | inr other ↦ rw other (λ k v h. h)
      ])
    ];
  }

  -- A silent visit leaves the node known as the leader of its term.
  note_leader-known :
      (n : RaftNode S R) (s t : ElectionSafety)
      → note_leader n s ≡ (ok none, t)
      → lookup n.current_term t ≡ some n.node_id
  unfolding note_leader meet_leader gets modify pure ◌>>=◌
  note_leader-known n s t e = elim (Option-cases (lookup n.current_term s)) [
    | inl fresh ↦
        let stored : insert n.current_term n.node_id s ≡ t = ap (λ r. r.1) (rw fresh at e) in
        rw (← stored) (ground (arith, lookup-insert n.current_term n.current_term n.node_id s))
    | inr (incumbent, known) ↦ elim (Bool-cases (incumbent == n.node_id)) [
      | inl same ↦
          let stays : s ≡ t = ap (λ r. r.1) (rw (known, same) at e) in
          let one : incumbent ≡ n.node_id = ground arith in rw (← stays, known) (ap some one)
      | inr other ↦
          let told : ok (some (two_leaders n.current_term incumbent n.node_id)) ≡ ok none =
            ap (λ r. r.0) (rw (known, other) at e) in
          cc
    ]
  ]

  Steps-check_election : (v : ClusterView S R) → Steps Known (check_election v)
  unfolding check_election
  Steps-check_election v = Steps-first_of note_leader (leaders v) Steps-note_leader

  check_election-known :
      (v : ClusterView S R) (s t : ElectionSafety)
      → check_election v s ≡ (ok none, t)
      → (n : RaftNode S R) → Memᴰ n (leaders v)
      → lookup n.current_term t ≡ some n.node_id
  unfolding check_election
  check_election-known v =
      silent-All Known (λ n t. lookup n.current_term t ≡ some n.node_id) note_leader
        Steps-note_leader (λ n s t keeps h. keeps n.current_term n.node_id h) note_leader-known
        (leaders v)

  -- A checker that stayed silent over a sequence of views has seen at most one leader in each term:
  -- two nodes that ran as leaders of one term, in whichever of the views, are the same node.
  pub check_election-AtMostOneLeader :
      (views : List (ClusterView S R)) (leaders : ElectionSafety)
      → first_of check_election views [] ≡ (ok none, leaders)
      → (v w : ClusterView S R) → Memᴰ v views
      → Memᴰ w views
      → (i j : NodeId) (a b : RaftNode S R) → Memᴰ (i, a) v.nodes
      → Memᴰ (j, b) w.nodes
      → (a.running && is_leader a.role) ≡ true
      → (b.running && is_leader b.role) ≡ true
      → a.current_term ≡ b.current_term
      → a.node_id ≡ b.node_id
  check_election-AtMostOneLeader views leaders e v w mv mw i j a b ma mb la lb same =
      let ha = seen v mv a (leaders-Mem v i a ma la) in
      let hb = seen w mw b (leaders-Mem w j b mb lb) in cc
    where
      seen :
          (v : ClusterView S R)
          → Memᴰ v views
          → (n : RaftNode S R) → Memᴰ n (View.leaders v)
          → lookup n.current_term leaders ≡ some n.node_id
      seen =
          silent-All Known
            (λ v t.
              (n : RaftNode S R)
              → Memᴰ n (View.leaders v)
              → lookup n.current_term t ≡ some n.node_id)
            check_election Steps-check_election
            (λ v s t keeps h n m. keeps n.current_term n.node_id (h n m))
            (λ v s t e. check_election-known v s t e) views [] leaders e
