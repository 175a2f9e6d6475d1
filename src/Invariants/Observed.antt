-- ===== src/Invariants/Observed.antt =====
-- What one call of the registry with all its checkers says when no checker fired.
use ground_hog.Prelude.{
  ◌%◌, ◌≡◌, refl, sym, ◌∙◌, ap, List, [], ◌∷◌, Option, none, some, Bool, true, false, ◌+◌, ◌==◌,
  arith,
}
use mathlib.Core.Path.{subst}
use ground_hog.Prelude.Outcome.{ok, raised, invariant_violated}
use ground_hog.Prelude.Exec.{pure, raise, gets, modify, when, for_each, ◌>>=◌}
use ground_hog.Prelude.Steps.{
  Preorder, Steps, Steps-pure, Steps-bind, run-rel, bind-ok_elim, step_rules,
}
use ground_hog.Types.{Tick}
use ground_hog.Invariants.View.{ClusterView, Problem}
use ground_hog.Invariants.Election.{check_election}
use ground_hog.Invariants.AppendOnly.{check_append_only}
use ground_hog.Invariants.Matching.{check_matching}
use ground_hog.Invariants.Completeness.{check_completeness}
use ground_hog.Invariants.Machine.{check_machine}
use ground_hog.Invariants.Progress.{check_progress}
use ground_hog.Invariants.Registry.{
  CheckerName, Checker, Invariants, on_states, report, run_checker, run_checkers, observe, Watched,
  all_checkers,
}

module _ {S R C : Type 0} where
  -- A checker that was run and did not fire: its state moved, and nothing else did.
  record Quiet (v : ClusterView S R) (c : Checker S R C) (s t : Invariants S R C) : Type 0 where
    pub silent : c.observe v s.states ≡ (ok none, t.states)
    pub kept : record s { states = t.states } ≡ t

  run_checker-Quiet :
      (v : ClusterView S R) (c : Checker S R C) (s t : Invariants S R C)
      → s.stop_on_violation ≡ true
      → run_checker v c s ≡ (ok tt, t)
      → Quiet v c s t
  unfolding run_checker on_states report pure raise gets modify when ◌>>=◌
  run_checker-Quiet v c s t stop e =
      bind-ok_elim (on_states (c.observe v)) (report c.name v.tick) s e
        (λ o m one rest. go o m one rest)
    where
      go :
          (o : Option Problem) (m : Invariants S R C)
          → on_states (c.observe v) s ≡ (ok o, m)
          → report c.name v.tick o m ≡ (ok tt, t)
          → Quiet v c s t
      go none m one rest =
          let after : m ≡ t = ap (λ r. r.1) rest in
          let moved : (c.observe v s.states).1 ≡ t.states =
            ap (λ r. r.1.states) one ∙ ap (λ u. u.states) after in
          record {
            silent = ap (λ r. (r.0, r.1.states)) one ∙ ap (λ u. (ok none, u.states)) after;
            kept = ap (λ x. record s { states = x }) (sym moved) ∙ ap (λ r. r.1) one ∙ after;
          }
      go (some p) m one rest =
          let stops : m.stop_on_violation ≡ true =
            sym (ap (λ r. r.1.stop_on_violation) one) ∙ stop in
          let told : raised invariant_violated ≡ ok tt = ap (λ r. r.0) (rw stops at rest) in cc

  -- The loop over the checkers, one checker at a time.
  checkers_elim :
      {D : Type 0} (v : ClusterView S R) (c : Checker S R C) (cs : List (Checker S R C))
      (s u : Invariants S R C)
      → s.stop_on_violation ≡ true
      → for_each (run_checker v) (c ∷ cs) s ≡ (ok tt, u)
      → ((t : Invariants S R C)
          → t.stop_on_violation ≡ true
          → Quiet v c s t
          → for_each (run_checker v) cs t ≡ (ok tt, u)
          → D)
      → D
  unfolding for_each
  checkers_elim v c cs s u stop e k =
      bind-ok_elim (run_checker v c) (λ _. for_each (run_checker v) cs) s e
        λ _ t one rest.
          let quiet = run_checker-Quiet v c s t stop one in
          k t (sym (ap (λ i. i.stop_on_violation) quiet.kept) ∙ stop) quiet rest

  checkers_end :
      (v : ClusterView S R) (s u : Invariants S R C)
      → for_each (run_checker v) [] s ≡ (ok tt, u)
      → s ≡ u
  unfolding for_each pure
  checkers_end v s u e = ap (λ r. r.1) e

  -- What is set when the registry is made.
  record SameSetting (s t : Invariants S R C) : Type 0 where
    pub checkers : s.checkers ≡ t.checkers
    pub stride : s.stride ≡ t.stride
    pub stop : s.stop_on_violation ≡ t.stop_on_violation

  setting : Preorder (Invariants S R C)
  setting = record {
    rel = SameSetting;
    stays = λ s. record { checkers = refl; stride = refl; stop = refl };
    chain = λ s t u p q. record {
      checkers = p.checkers ∙ q.checkers;
      stride = p.stride ∙ q.stride;
      stop = p.stop ∙ q.stop;
    };
  }

  Steps-report :
      (name : CheckerName) (tick : Tick) (o : Option Problem) → Steps setting (report name tick o)
  unfolding report setting
  Steps-report name tick none = search step_rules depth 3
  Steps-report name tick (some p) = search step_rules depth 9

  Steps-run_checker : (v : ClusterView S R) (c : Checker S R C) → Steps setting (run_checker v c)
  unfolding run_checker on_states setting
  Steps-run_checker v c =
      Steps-bind (on_states (c.observe v)) _
        (record { at = λ s. record { checkers = refl; stride = refl; stop = refl } })
        (Steps-report c.name v.tick)

  Steps-run_checkers : (v : ClusterView S R) (b : Bool) → Steps setting (run_checkers v b)
  unfolding run_checkers
  Steps-run_checkers v true = search (step_rules, Steps-run_checker) depth 6
  Steps-run_checkers v false = Steps-pure tt

  Steps-observe : (v : ClusterView S R) → Steps setting (observe v)
  unfolding observe setting
  Steps-observe v = search (step_rules, Steps-run_checkers) depth 9

module _ {S R : Type 0} where
  -- No checker fired at the view.
  pub record AllSilent (v : ClusterView S R) (w u : Watched) : Type 0 where
    pub election : check_election v w.election ≡ (ok none, u.election)
    pub append_only : check_append_only v w.append_only ≡ (ok none, u.append_only)
    pub matching : check_matching v ≡ ok none
    pub completeness : check_completeness v w.completeness ≡ (ok none, u.completeness)
    pub machine : check_machine v w.machine ≡ (ok none, u.machine)
    pub progress : check_progress v w.progress ≡ (ok none, u.progress)

  all_checkers-AllSilent :
      (v : ClusterView S R) (s u : Invariants S R Watched)
      → s.stop_on_violation ≡ true
      → for_each (run_checker v) all_checkers s ≡ (ok tt, u)
      → AllSilent v s.states u.states
  all_checkers-AllSilent v s u stop e = checkers_elim v _ _ s u stop e λ a sa qa ea.
      checkers_elim v _ _ a u sa ea λ b sb qb eb. checkers_elim v _ _ b u sb eb λ c sc qc ec.
        checkers_elim v _ _ c u sc ec λ d sd qd ed. checkers_elim v _ _ d u sd ed λ f sf qf ef.
          checkers_elim v _ _ f u sf ef λ g sg qg eg.
            let ends : g ≡ u = checkers_end v g u eg in
            record {
              election =
                  ap (λ r. (r.0, r.1.election)) qa.silent
                  ∙ ap (λ x. (ok none, x))
                      (ap (λ r. r.1.election) qb.silent
                        ∙ ap (λ r. r.1.election) qc.silent
                        ∙ ap (λ r. r.1.election) qd.silent
                        ∙ ap (λ r. r.1.election) qf.silent
                        ∙ ap (λ r. r.1.election) qg.silent
                        ∙ ap (λ i. i.states.election) ends);
              append_only =
                  ap (check_append_only v) (ap (λ r. r.1.append_only) qa.silent)
                  ∙ ap (λ r. (r.0, r.1.append_only)) qb.silent
                  ∙ ap (λ x. (ok none, x))
                      (ap (λ r. r.1.append_only) qc.silent
                        ∙ ap (λ r. r.1.append_only) qd.silent
                        ∙ ap (λ r. r.1.append_only) qf.silent
                        ∙ ap (λ r. r.1.append_only) qg.silent
                        ∙ ap (λ i. i.states.append_only) ends);
              completeness =
                  ap (check_completeness v) (
                    ap (λ r. r.1.completeness) qa.silent
                    ∙ ap (λ r. r.1.completeness) qb.silent
                    ∙ ap (λ r. r.1.completeness) qc.silent)
                  ∙ ap (λ r. (r.0, r.1.completeness)) qd.silent
                  ∙ ap (λ x. (ok none, x))
                      (ap (λ r. r.1.completeness) qf.silent
                        ∙ ap (λ r. r.1.completeness) qg.silent
                        ∙ ap (λ i. i.states.completeness) ends);
              machine =
                  ap (check_machine v) (
                    ap (λ r. r.1.machine) qa.silent
                    ∙ ap (λ r. r.1.machine) qb.silent
                    ∙ ap (λ r. r.1.machine) qc.silent
                    ∙ ap (λ r. r.1.machine) qd.silent)
                  ∙ ap (λ r. (r.0, r.1.machine)) qf.silent
                  ∙ ap (λ x. (ok none, x))
                      (ap (λ r. r.1.machine) qg.silent ∙ ap (λ i. i.states.machine) ends);
              progress =
                  ap (check_progress v) (
                    ap (λ r. r.1.progress) qa.silent
                    ∙ ap (λ r. r.1.progress) qb.silent
                    ∙ ap (λ r. r.1.progress) qc.silent
                    ∙ ap (λ r. r.1.progress) qd.silent
                    ∙ ap (λ r. r.1.progress) qf.silent)
                  ∙ ap (λ r. (r.0, r.1.progress)) qg.silent
                  ∙ ap (λ x. (ok none, x)) (ap (λ i. i.states.progress) ends);
              matching = ap (λ r. r.0) qc.silent;
            }

  -- A registry that runs every checker after every event and stops at the first violation.
  pub record Strict (s : Invariants S R Watched) : Type 0 where
    pub all : s.checkers ≡ all_checkers
    pub always : s.stride ≡ 1
    pub stop : s.stop_on_violation ≡ true

  pub observe-AllSilent :
      (v : ClusterView S R) (s t : Invariants S R Watched)
      → Strict s
      → observe v s ≡ (ok tt, t)
      → AllSilent v s.states t.states × Strict t
  unfolding observe run_checkers setting gets modify pure ◌>>=◌
  observe-AllSilent v s t strict e =
      let due : (s.observations + 1) % s.stride == 0 ≡ true = rw strict.always (ground arith) in
      let run : for_each (run_checker v) s.checkers (record s { observations = s.observations + 1 })
          ≡ (ok tt, t) =
        rw due at e in
      let kept : SameSetting s t = run-rel setting (observe v) (Steps-observe v) e in
      (
        all_checkers-AllSilent v (record s { observations = s.observations + 1 }) t strict.stop
            (subst
              (λ cs.
                for_each (run_checker v) cs (record s { observations = s.observations + 1 })
                ≡ (ok tt, t))
              strict.all run),
        record {
          all = sym kept.checkers ∙ strict.all;
          always = sym kept.stride ∙ strict.always;
          stop = sym kept.stop ∙ strict.stop;
        },
      )
