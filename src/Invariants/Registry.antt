-- ===== src/Invariants/Registry.antt =====
-- groundhog/invariants/base.py, `class Invariants`: every checker after every event. A checker acts on
-- a state that all of them share; `all_checkers` (groundhog/invariants/safety.py) gives each its own
-- field of it.
use ground_hog.Prelude.{
  ℕ, ◌+◌, ◌%◌, List, [], ◌∷◌, ◌++◌, Option, none, some, Bool, true, false, ◌==◌, if◌then◌else◌,
}
use ground_hog.Prelude.Outcome.{Outcome, ok, raised, value_error, invariant_violated}
use ground_hog.Prelude.Exec.{Exec, pure, raise, gets, modify, when, for_each, ◌>>=◌, ◌>>◌}
use ground_hog.Types.{Tick}
use ground_hog.Invariants.View.{ClusterView, Problem}
use ground_hog.Invariants.Election.{ElectionSafety, check_election}
use ground_hog.Invariants.AppendOnly.{LeaderAppendOnly, check_append_only}
use ground_hog.Invariants.Matching.{check_matching}
use ground_hog.Invariants.Completeness.{LeaderCompleteness, check_completeness}
use ground_hog.Invariants.Machine.{StateMachineSafety, check_machine}
use ground_hog.Invariants.Progress.{MonotonicProgress, check_progress}

-- The names of the six checkers.
pub data CheckerName : Type 0 where
  election_safety leader_append_only log_matching leader_completeness : CheckerName
  state_machine_safety monotonic_progress : CheckerName

pub record Violation : Type 0 where
  pub checker : CheckerName
  pub seed : ℕ
  pub tick : Tick
  pub detail : Problem

-- `Checker`, over the state `C` of the checkers.
pub record Checker (S R C : Type 0) : Type 0 where
  pub name : CheckerName
  pub observe : ClusterView S R → Exec C (Option Problem)

pub record Invariants (S R C : Type 0) : Type 0 where
  pub checkers : List (Checker S R C)
  pub states : C
  pub seed : ℕ
  pub stride : ℕ
  pub stop_on_violation : Bool
  pub violations : List Violation
  pub observations : ℕ

module _ {S R C : Type 0} where
  -- An action on the checkers' state, as an action on the registry.
  unfoldable pub on_states : {A : Type 0} → Exec C A → Exec (Invariants S R C) A
  on_states m s = let r = m s.states in (r.0, record s { states = r.1 })

  -- The body of the loop, after the checker answered.
  unfoldable pub report : CheckerName → Tick → Option Problem → Exec (Invariants S R C) (Unit {0})
  report name tick none = pure tt
  report name tick (some problem) = do
    seed ← gets (λ s. s.seed)
    modify (λ s. record s {
      violations =
          s.violations
          ++ record { checker = name; seed = seed; tick = tick; detail = problem } ∷ [];
    })
    stop ← gets (λ s. s.stop_on_violation)
    when stop (raise invariant_violated)

  unfoldable pub run_checker : ClusterView S R → Checker S R C → Exec (Invariants S R C) (Unit {0})
  unfolding on_states report
  run_checker view checker = on_states (checker.observe view) >>= report checker.name view.tick

  unfoldable pub run_checkers : ClusterView S R → Bool → Exec (Invariants S R C) (Unit {0})
  unfolding run_checker
  run_checkers view false = pure tt
  run_checkers view true = do
    checkers ← gets (λ s. s.checkers)
    for_each (run_checker view) checkers

  -- `Invariants.observe`
  unfoldable pub observe : ClusterView S R → Exec (Invariants S R C) (Unit {0})
  unfolding run_checkers
  observe view = do
    modify (λ s. record s { observations = s.observations + 1 })
    s ← gets (λ s. s)
    run_checkers view (s.observations % s.stride == 0)

-- The fields of the six checkers; log matching has none.
pub record Watched : Type 0 where
  pub election : ElectionSafety
  pub append_only : LeaderAppendOnly
  pub completeness : LeaderCompleteness
  pub machine : StateMachineSafety
  pub progress : MonotonicProgress

abbrev pub unwatched : Watched
unwatched = record {
  election = [];
  append_only = [];
  completeness = record { committed = []; checked_terms = [] };
  machine = [];
  progress = [];
}

module _ {S R : Type 0} where
  abbrev pub watch_election : ClusterView S R → Exec Watched (Option Problem)
  watch_election v w = let r = check_election v w.election in (r.0, record w { election = r.1 })

  abbrev pub watch_append_only : ClusterView S R → Exec Watched (Option Problem)
  watch_append_only v w =
      let r = check_append_only v w.append_only in (r.0, record w { append_only = r.1 })

  abbrev pub watch_matching : ClusterView S R → Exec Watched (Option Problem)
  watch_matching v w = (check_matching v, w)

  abbrev pub watch_completeness : ClusterView S R → Exec Watched (Option Problem)
  watch_completeness v w =
      let r = check_completeness v w.completeness in (r.0, record w { completeness = r.1 })

  abbrev pub watch_machine : ClusterView S R → Exec Watched (Option Problem)
  watch_machine v w = let r = check_machine v w.machine in (r.0, record w { machine = r.1 })

  abbrev pub watch_progress : ClusterView S R → Exec Watched (Option Problem)
  watch_progress v w = let r = check_progress v w.progress in (r.0, record w { progress = r.1 })

  abbrev pub all_checkers : List (Checker S R Watched)
  all_checkers =
      record { name = election_safety; observe = watch_election }
      ∷ record { name = leader_append_only; observe = watch_append_only }
      ∷ record { name = log_matching; observe = watch_matching }
      ∷ record { name = leader_completeness; observe = watch_completeness }
      ∷ record { name = state_machine_safety; observe = watch_machine }
      ∷ record { name = monotonic_progress; observe = watch_progress }
      ∷ []

  -- `Invariants(all_checkers(), seed=..., stride=..., stop_on_violation=...)`
  abbrev pub invariants : ℕ → ℕ → Bool → Outcome (Invariants S R Watched)
  invariants seed stride stop =
      if stride == 0
      then raised value_error
      else ok (record {
        checkers = all_checkers;
        states = unwatched;
        seed = seed;
        stride = stride;
        stop_on_violation = stop;
        violations = [];
        observations = 0;
      })
