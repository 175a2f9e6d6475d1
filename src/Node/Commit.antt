-- ===== src/Node/Commit.antt =====
-- The commit rule of section 5.4.2: what a leader commits is an entry of its own term that a majority
-- holds.
use ground_hog.Prelude.{
  ℕ, zero, suc, ◌+◌, ◌-◌, ◌≤◌, ◌<◌, ◌≡◌, refl, ◌∙◌, ap, sym, Option, none, some, true, leb, ◌==◌,
  arith, Bool-cases, inl, inr, ◌⊎◌, if◌then◌else◌,
}
use ground_hog.Prelude.Outcome.{ok}
use ground_hog.Prelude.Exec.{modify, pure, ◌>>=◌}
use ground_hog.Prelude.Steps.{
  Preorder, Steps, Steps-pure, Steps-modify, Steps-weaken, run-rel, gets-ok, lift-ok_elim,
  step_rules,
}
use ground_hog.Log.{last_index, term_at}
use ground_hog.Types.{NodeId, Index}
use ground_hog.Node.State.{RaftNode, Action, majority}
use ground_hog.Node.Frame.{kept_disk, write_trace-kept, send-kept}
use ground_hog.Node.Roles.{is_leader, pay, apply_next, apply_round, apply_rounds, apply_committed}
use ground_hog.Node.Handlers.{count_matching, try_commit, advance_from, advance_commit_index}

module _ {S R : Type 0} where
  pub record SameCommit (n t : RaftNode S R) : Type 0 where
    pub same : n.commit_index ≡ t.commit_index

  abbrev same_commit : Preorder (RaftNode S R)
  same_commit = record {
    rel = SameCommit;
    stays = λ n. record { same = refl };
    chain = λ n t u p q. record { same = p.same ∙ q.same };
  }

  uncommitted :
      (f : RaftNode S R → RaftNode S R)
      → ((n : RaftNode S R) → n.commit_index ≡ (f n).commit_index)
      → Steps same_commit (modify f)
  uncommitted f h = Steps-modify f (λ n. record { same = h n })

  of_kept_disk : {A : Type 0} (m : Action S R A) → Steps kept_disk m → Steps same_commit m
  of_kept_disk m =
      Steps-weaken kept_disk same_commit m
        (λ n t h. record { same = ap (λ c. c.commit_index) h.same_core })

  pay-same_commit : (o : Option (NodeId × ℕ)) → Steps same_commit (pay {S = S} {R = R} o)
  unfolding pay
  pay-same_commit none = Steps-pure tt
  pay-same_commit (some p) = of_kept_disk _ (send-kept _ _)

  apply_next-same_commit : Steps same_commit (apply_next {S = S} {R = R})
  unfolding apply_next
  apply_next-same_commit =
      search (step_rules, uncommitted, of_kept_disk, write_trace-kept, pay-same_commit) depth 12

  apply_round-same_commit :
      (m : Action S R (Unit {0})) → Steps same_commit m → Steps same_commit (apply_round m)
  unfolding apply_round
  apply_round-same_commit m k = search (step_rules, apply_next-same_commit)

  apply_rounds-same_commit : (k : ℕ) → Steps same_commit (apply_rounds {S = S} {R = R} k)
  unfolding apply_rounds
  apply_rounds-same_commit zero = Steps-pure tt
  apply_rounds-same_commit (suc k) = apply_round-same_commit _ (apply_rounds-same_commit k)

  pub apply_committed-same_commit : Steps same_commit (apply_committed {S = S} {R = R})
  unfolding apply_committed
  apply_committed-same_commit = search (step_rules, apply_rounds-same_commit)

  -- A leader may commit up to `i`.
  pub record MayCommit (n : RaftNode S R) (i : Index) : Type 0 where
    pub later : n.commit_index < i
    pub own_term : term_at n.log i ≡ ok n.current_term
    pub held : majority n ≤ 1 + count_matching n.match_index i n.peers

  commit_now :
      (i : Index) (n t : RaftNode S R)
      → (modify (λ (n : RaftNode S R). record n { commit_index = i }) >>= λ _. apply_committed) n
        ≡ (ok tt, t)
      → t.commit_index ≡ i
  unfolding modify ◌>>=◌
  commit_now i n t e =
      sym
        (run-rel same_commit apply_committed {s = record n { commit_index = i }}
          apply_committed-same_commit e).same

  try_commit-rule :
      (i : Index) (lower : Action S R (Unit {0})) (n t : RaftNode S R)
      → n.commit_index < i
      → (lower n ≡ (ok tt, t) → (t.commit_index ≡ n.commit_index) ⊎ MayCommit n t.commit_index)
      → try_commit i lower n ≡ (ok tt, t)
      → (t.commit_index ≡ n.commit_index) ⊎ MayCommit n t.commit_index
  unfolding try_commit
  try_commit-rule i lower n t later below e =
      lift-ok_elim (term_at n.log i) _ n (gets-ok (λ n. n) _ n e) λ term found e'.
        elim (Bool-cases (term == n.current_term)) [
          | inl own ↦
              elim (Bool-cases (leb (majority n) (1 + count_matching n.match_index i n.peers))) [
                | inl enough ↦
                    let here : t.commit_index ≡ i = commit_now i n t (rw (own, enough) at e') in
                    inr (
                      rw here (record {
                        later = later;
                        own_term = ground (arith, found, own);
                        held = ground (arith, enough);
                      }))
                | inr few ↦ below (rw (own, few) at e')
              ]
          | inr older ↦ below (rw older at e')
        ]

  advance_from-rule :
      (k : ℕ) (base : Index) (n t : RaftNode S R)
      → n.commit_index ≤ base
      → advance_from base k n ≡ (ok tt, t)
      → (t.commit_index ≡ n.commit_index) ⊎ MayCommit n t.commit_index
  unfolding advance_from pure
  advance_from-rule zero base n t le e = inl (ap (λ p. p.1.commit_index) (sym e))
  advance_from-rule (suc k) base n t le e =
      try_commit-rule (base + suc k) (advance_from base k) n t (omega arith)
        (advance_from-rule k base n t le) e

  -- Where the commit rule returns, either the commit index is as before, or the node is the leader
  -- and the new commit index is larger, its entry has the node's own term, and the node with the
  -- peers known to hold it are a majority.
  pub advance_commit_index-MayCommit :
      (n t : RaftNode S R)
      → advance_commit_index n ≡ (ok tt, t)
      → (t.commit_index ≡ n.commit_index) ⊎ (MayCommit n t.commit_index × (is_leader n.role ≡ true))
  unfolding advance_commit_index pure
  advance_commit_index-MayCommit n t e =
      let run : (if is_leader n.role
              then advance_from n.commit_index (last_index n.log - n.commit_index)
              else pure tt)
            n
          ≡ (ok tt, t) =
        gets-ok (λ n. n) _ n e in
      elim (Bool-cases (is_leader n.role)) [
        | inl leads ↦
            elim (advance_from-rule (last_index n.log - n.commit_index) n.commit_index n t
              (omega arith) (rw leads at run)) [ inl same ↦ inl same | inr may ↦ inr (may, leads) ]
        | inr follows ↦
            let still = rw follows at run in inl (ap (λ p. p.1.commit_index) (sym still))
      ]
