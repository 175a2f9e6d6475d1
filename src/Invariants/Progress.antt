-- ===== src/Invariants/Progress.antt =====
-- groundhog/invariants/safety.py, `class MonotonicProgress`.
use ground_hog.Prelude.{
  ◌≤◌, ◌≡◌, sym, ◌∙◌, ap, Option, none, some, true, false, ◌==◌, ltb, Memᴰ, if◌then◌else◌, arith,
  Bool-cases, Option-cases, inl, inr,
}
use ground_hog.Prelude.Dict.{Dict, nat_eq, lookup, insert, erase, lookup-insert, lookup-erase}
use ground_hog.Prelude.Outcome.{ok}
use ground_hog.Prelude.Exec.{Exec, pure, gets, modify, ◌>>=◌, ◌>>◌}
use ground_hog.Prelude.Watch.{first_of, Visit, silent-visited}
use ground_hog.Node.State.{RaftNode}
use ground_hog.Types.{NodeId, Index}
use ground_hog.Invariants.View.{
  ClusterView, Problem, applied_uncommitted, commit_went_back, sorted_nodes, sorted_nodes-Mem,
  IsKeyed, sorted_nodes-one,
}

-- `MonotonicProgress.high_water`
abbrev pub MonotonicProgress : Type 0
MonotonicProgress = Dict NodeId Index

module _ {S R : Type 0} where
  -- The comparison with the commit index seen before.
  compare_commit : RaftNode S R → Option Index → Exec MonotonicProgress (Option Problem)
  compare_commit node none = do modify (insert node.node_id node.commit_index); pure none
  compare_commit node (some previous) =
      if ltb node.commit_index previous
      then pure (some (commit_went_back node.node_id previous node.commit_index))
      else (modify (insert node.node_id node.commit_index) >> pure none)

  -- The body of the loop.
  check_progress_of : RaftNode S R → Exec MonotonicProgress (Option Problem)
  unfolding compare_commit
  check_progress_of node =
      if node.running
      then if ltb node.commit_index node.last_applied
        then pure (some (applied_uncommitted node.node_id node.last_applied node.commit_index))
        else (gets (lookup node.node_id) >>= compare_commit node)
      else (modify (erase node.node_id) >> pure none)

  -- `MonotonicProgress.observe`
  unfoldable pub check_progress : ClusterView S R → Exec MonotonicProgress (Option Problem)
  unfolding check_progress_of
  check_progress view = first_of check_progress_of (sorted_nodes view)

  -- What a silent visit leaves of the node, and what it found.
  record Passed (n : RaftNode S R) (s t : MonotonicProgress) : Type 0 where
    pub recorded :
        (j : NodeId)
        → lookup j t ≡ (
            if n.node_id == j
            then (if n.running then some n.commit_index else none)
            else lookup j s)
    pub applied : n.running ≡ true → n.last_applied ≤ n.commit_index
    pub higher :
        n.running ≡ true
        → (previous : Index) → lookup n.node_id s ≡ some previous
        → previous ≤ n.commit_index

  check_progress_of-Passed :
      (n : RaftNode S R) (s t : MonotonicProgress)
      → check_progress_of n s ≡ (ok none, t)
      → Passed n s t
  unfolding check_progress_of compare_commit gets modify pure ◌>>=◌
  check_progress_of-Passed n s t e = elim (Bool-cases n.running) [
    | inr stopped ↦
        let cleared : erase n.node_id s ≡ t = ap (λ r. r.1) (rw stopped at e) in
        record {
          recorded = λ j. rw (← cleared, stopped) (lookup-erase n.node_id j s);
          applied = λ up. cc;
          higher = λ up. cc;
        }
    | inl runs ↦ elim (Bool-cases (ltb n.commit_index n.last_applied)) [
      | inl ahead ↦
          let told : ok (some (applied_uncommitted n.node_id n.last_applied n.commit_index))
              ≡ ok none =
            ap (λ r. r.0) (rw (runs, ahead) at e) in
          cc
      | inr fine ↦ elim (Option-cases (lookup n.node_id s)) [
        | inl fresh ↦
            let stored : insert n.node_id n.commit_index s ≡ t =
              ap (λ r. r.1) (rw (runs, fine, fresh) at e) in
            record {
              recorded = λ j. rw (← stored, runs) (lookup-insert n.node_id j n.commit_index s);
              applied = λ up. ground arith;
              higher = λ up previous h. cc;
            }
        | inr (before, known) ↦ elim (Bool-cases (ltb n.commit_index before)) [
          | inl back ↦
              let told : ok (some (commit_went_back n.node_id before n.commit_index)) ≡ ok none =
                ap (λ r. r.0) (rw (runs, fine, known, back) at e) in
              cc
          | inr on ↦
              let stored : insert n.node_id n.commit_index s ≡ t =
                ap (λ r. r.1) (rw (runs, fine, known, on) at e) in
              record {
                recorded = λ j. rw (← stored, runs) (lookup-insert n.node_id j n.commit_index s);
                applied = λ up. ground arith;
                higher = λ up previous h. let same : before ≡ previous = cc in ground arith;
              }
        ]
      ]
    ]
  ]

  -- A visit to a node of the view leaves its commit index recorded, also at the end of the loop.
  visit_recorded :
      (n : RaftNode S R)
      → n.running ≡ true
      → Visit check_progress_of
          (λ n. n.node_id)
          n
          (λ s. Unit)
          (λ t. lookup n.node_id t ≡ some n.commit_index)
  visit_recorded n up = record {
    other = λ b s t differ e h. tt;
    own = λ s t e h. let p = (check_progress_of-Passed n s t e).recorded n.node_id in ground arith;
    keeps = λ b s t one e h. elim (Bool-cases (b.node_id == n.node_id)) [
      | inl same ↦
          let here : b ≡ n = one (ground arith) in
          let p = (check_progress_of-Passed n s t (rw here at e)).recorded n.node_id in ground arith
      | inr other ↦
          let p = (check_progress_of-Passed b s t e).recorded n.node_id in rw other at p ∙ h
    ];
  }

  -- A visit to a node whose commit index was recorded finds it no lower.
  visit_higher :
      (n : RaftNode S R) (previous : Index)
      → n.running ≡ true
      → Visit check_progress_of
          (λ n. n.node_id)
          n
          (λ s. lookup n.node_id s ≡ some previous)
          (λ t. previous ≤ n.commit_index)
  visit_higher n previous up = record {
    other = λ b s t differ e h.
        let p = (check_progress_of-Passed b s t e).recorded n.node_id in
        let apart : (b.node_id == n.node_id) ≡ false = ground arith in (rw apart at p) ∙ h;
    own = λ s t e h. (check_progress_of-Passed n s t e).higher up previous h;
    keeps = λ b s t one e h. h;
  }

  visit_applied :
      (n : RaftNode S R)
      → n.running ≡ true
      → Visit check_progress_of
          (λ n. n.node_id)
          n
          (λ s. Unit)
          (λ t. n.last_applied ≤ n.commit_index)
  visit_applied n up = record {
    other = λ b s t differ e h. tt;
    own = λ s t e h. (check_progress_of-Passed n s t e).applied up;
    keeps = λ b s t one e h. h;
  }

  -- Where the checker stayed silent over two views, one after the other, a node that runs in both
  -- has not lowered its commit index in between, and has applied no more than it has committed.
  pub check_progress-monotonic :
      (v w : ClusterView S R) (s t u : MonotonicProgress)
      → IsKeyed v
      → IsKeyed w
      → check_progress v s ≡ (ok none, t)
      → check_progress w t ≡ (ok none, u)
      → (i : NodeId) (a b : RaftNode S R) → Memᴰ (i, a) v.nodes
      → Memᴰ (i, b) w.nodes
      → a.running ≡ true
      → b.running ≡ true
      → (a.commit_index ≤ b.commit_index) × (b.last_applied ≤ b.commit_index)
  unfolding check_progress
  check_progress-monotonic v w s t u kv kw ev ew i a b ma mb ra rb =
      let va = sorted_nodes-Mem v i a ma in
      let vb = sorted_nodes-Mem w i b mb in
      let same : a.node_id ≡ b.node_id = kv.own i a ma ∙ sym (kw.own i b mb) in
      let unique : (n : RaftNode S R) → Memᴰ n (sorted_nodes w) → n.node_id ≡ b.node_id → n ≡ b =
        λ n m e. sorted_nodes-one w kw n b m vb e in
      let recorded : lookup a.node_id t ≡ some a.commit_index =
        silent-visited check_progress_of (λ n. n.node_id) a _ _ (visit_recorded a ra)
          (sorted_nodes v) (λ n m e. sorted_nodes-one v kv n a m va e) s t ev va tt in
      (
        silent-visited check_progress_of (λ n. n.node_id) b _ _ (visit_higher b a.commit_index rb)
            (sorted_nodes w) unique t u ew vb (rw same at recorded),
        silent-visited check_progress_of (λ n. n.node_id) b _ _ (visit_applied b rb)
            (sorted_nodes w) unique t u ew vb tt,
      )
