-- ===== src/Invariants/Watching.antt =====
-- What a run of the registry with all its checkers says when no checker fired.
use ground_hog.Prelude.{ℕ, ◌≤◌, ◌≡◌, refl, ap, List, [], ◌∷◌, none, true, inl, inr, ◌&&◌, Memᴰ}
use mathlib.Core.List.Memᴰ
use ground_hog.Prelude.Outcome.{ok}
use ground_hog.Prelude.Exec.{pure, for_each}
use ground_hog.Prelude.Steps.{bind-ok_elim}
use ground_hog.Prelude.Watch.{first_of, silent-cons}
use ground_hog.Node.State.{RaftNode}
use ground_hog.Node.Roles.{is_leader}
use ground_hog.Types.{NodeId, Index}
use ground_hog.Invariants.View.{ClusterView}
use ground_hog.Invariants.Election.{check_election, check_election-AtMostOneLeader}
use ground_hog.Invariants.Matching.{check_matching}
use ground_hog.Invariants.Machine.{check_machine, SameApplied, check_machine-SameApplied}
use ground_hog.Invariants.Registry.{
  Invariants, observe, Watched, unwatched, all_checkers, invariants,
}
use ground_hog.Invariants.Observed.{Strict, observe-AllSilent}

module _ {S R : Type 0} where
  -- The registry was silent at every view: so was each checker, from the state that it had.
  record AllQuiet (views : List (ClusterView S R)) (w u : Watched) : Type 0 where
    pub election : first_of check_election views w.election ≡ (ok none, u.election)
    pub machine : first_of check_machine views w.machine ≡ (ok none, u.machine)
    pub matching : (v : ClusterView S R) → Memᴰ v views → check_matching v ≡ ok none

  observe-AllQuiet :
      (views : List (ClusterView S R)) (s u : Invariants S R Watched)
      → Strict s
      → for_each observe views s ≡ (ok tt, u)
      → AllQuiet views s.states u.states
  unfolding for_each first_of pure
  observe-AllQuiet [] s u strict e =
      let same : s.states ≡ u.states = ap (λ r. r.1.states) e in
      record {
        election = ap (λ w. (ok none, w.election)) same;
        machine = ap (λ w. (ok none, w.machine)) same;
        matching = λ v m. absurd (Memᴰ.not-nil m);
      }
  observe-AllQuiet (v ∷ views) s u strict e =
      bind-ok_elim (observe v) (λ _. for_each observe views) s e
        λ _ t one rest.
          let now = observe-AllSilent v s t strict one in
          let later = observe-AllQuiet views t u now.1 rest in
          record {
            election =
                silent-cons check_election v views s.states.election t.states.election
                  u.states.election now.0.election later.election;
            machine =
                silent-cons check_machine v views s.states.machine t.states.machine u.states.machine
                  now.0.machine later.machine;
            matching = λ w m. elim (Memᴰ.cases_cons m) [
              | inl here ↦ rw here now.0.matching
              | inr below ↦ later.matching w below
            ];
          }

  -- The same, for a registry that was just made, at stride 1 and stopping at a violation.
  invariants-AllQuiet :
      (seed : ℕ) (views : List (ClusterView S R)) (s u : Invariants S R Watched)
      → invariants seed 1 true ≡ ok s
      → for_each observe views s ≡ (ok tt, u)
      → AllQuiet views unwatched u.states
  invariants-AllQuiet seed views s u made e =
      let fresh : Invariants S R Watched = record {
        checkers = all_checkers;
        states = unwatched;
        seed = seed;
        stride = 1;
        stop_on_violation = true;
        violations = [];
        observations = 0;
      } in
      let one : ok fresh ≡ ok s = made in
      let same : fresh ≡ s = cc in
      observe-AllQuiet views fresh u (record { all = refl; always = refl; stop = refl }) (rw same e)

  -- A run whose every view the registry observed with all its checkers, at stride 1 and stopping at
  -- a violation, and in which it raised nothing, had at most one leader in each term, over all of
  -- its views.
  pub observe-AtMostOneLeader :
      (seed : ℕ) (views : List (ClusterView S R)) (s u : Invariants S R Watched)
      → invariants seed 1 true ≡ ok s
      → for_each observe views s ≡ (ok tt, u)
      → (v w : ClusterView S R) → Memᴰ v views
      → Memᴰ w views
      → (i j : NodeId) (a b : RaftNode S R) → Memᴰ (i, a) v.nodes
      → Memᴰ (j, b) w.nodes
      → (a.running && is_leader a.role) ≡ true
      → (b.running && is_leader b.role) ≡ true
      → a.current_term ≡ b.current_term
      → a.node_id ≡ b.node_id
  observe-AtMostOneLeader seed views s u made e =
      check_election-AtMostOneLeader views u.states.election
        (invariants-AllQuiet seed views s u made e).election

  -- In such a run, no two nodes applied different entries at one index, in whichever of its views.
  pub observe-SameApplied :
      (seed : ℕ) (views : List (ClusterView S R)) (s u : Invariants S R Watched)
      → invariants seed 1 true ≡ ok s
      → for_each observe views s ≡ (ok tt, u)
      → (v w : ClusterView S R) → Memᴰ v views
      → Memᴰ w views
      → (i j : NodeId) (a b : RaftNode S R) → Memᴰ (i, a) v.nodes
      → Memᴰ (j, b) w.nodes
      → (index : Index) → 1 ≤ index
      → index ≤ a.last_applied
      → index ≤ b.last_applied
      → SameApplied a b index
  observe-SameApplied seed views s u made e =
      check_machine-SameApplied views u.states.machine
        (invariants-AllQuiet seed views s u made e).machine
