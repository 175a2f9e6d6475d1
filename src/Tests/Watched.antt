-- ===== src/Tests/Watched.antt =====
-- Runs of the checkers over two nodes, one of which leads.
use ground_hog.Prelude.{
  ℕ, ◌≤◌, ◌≡◌, refl, sym, ◌∙◌, ap, List, [], ◌∷◌, none, some, true, arith, Memᴰ, ◌⊎◌, inl, inr,
  take, length,
}
use mathlib.Core.List.Memᴰ
use ground_hog.Prelude.Dict.{nat_eq, lookup}
use ground_hog.Prelude.Outcome.{ok}
use ground_hog.Prelude.Exec.{for_each, ◌>>=◌, pure, raise, lift, gets, modify, when}
use ground_hog.Prelude.Watch.{first_of}
use ground_hog.Prelude.Sort.{sorted_items, sorted_texts}
use ground_hog.Kv
use ground_hog.Kv.{KvStore, put, apply, get, all_keys}
use ground_hog.Log.{LogEntry, entry_at, term_at, last_index, has_entry}
use ground_hog.Node.State.{RaftNode, leader, init}
use ground_hog.Types.{NodeId}
use ground_hog.Invariants.View.{ClusterView, IsKeyed, leaders, sorted_nodes, filter_leaders}
use ground_hog.Invariants.Registry.{
  Invariants, Watched, unwatched, all_checkers, observe, on_states, report, run_checker,
  run_checkers,
}
use ground_hog.Invariants.Watching.{observe-AtMostOneLeader, observe-SameApplied}
use ground_hog.Invariants.Election.{check_election}
use ground_hog.Invariants.Matching.{check_matching, check_matching-Agree}
use ground_hog.Invariants.Machine.{SameApplied, check_machine}
use ground_hog.Invariants.Progress.{MonotonicProgress, check_progress, check_progress-monotonic}
use ground_hog.Invariants.AppendOnly.{LeaderAppendOnly, check_append_only, check_append_only-kept}
use ground_hog.Invariants.Completeness.{LeaderCompleteness, check_completeness}
use ground_hog.Invariants.Completeness.Silent.{check_completeness-HasCommitted}
use ground_hog.Invariants.Divergence.{Stores, check, check-agree}
use ground_hog.Tests.{Memory, node}

abbrev entry : LogEntry
entry = record { term = 1; index = 1; command = put (97 ∷ []) (98 ∷ []) }

abbrev leading : RaftNode Memory (Unit {0})
leading = record node {
  node_id = 1;
  running = true;
  role = leader;
  current_term = 1;
  log = entry ∷ [];
  commit_index = 1;
  last_applied = 1;
}

abbrev following : RaftNode Memory (Unit {0})
following = record leading { node_id = 2; role = node.role }

abbrev view : ClusterView Memory (Unit {0})
view = record { tick = 5; nodes = (2, following) ∷ (1, leading) ∷ []; history = [] }

abbrev views : List (ClusterView Memory (Unit {0}))
views = view ∷ view ∷ []

abbrev registry : Invariants Memory (Unit {0}) Watched
registry = record {
  checkers = all_checkers;
  states = unwatched;
  seed = 0;
  stride = 1;
  stop_on_violation = true;
  violations = [];
  observations = 0;
}

abbrev watched : Invariants Memory (Unit {0}) Watched
watched = (for_each observe views registry).1

observed : for_each observe views registry ≡ (ok tt, watched)
unfolding for_each ◌>>=◌ pure raise lift gets modify when first_of observe on_states report
    run_checker run_checkers check_election check_append_only check_matching check_completeness
    check_machine check_progress leaders sorted_nodes filter_leaders sorted_items init last_index
    has_entry entry_at term_at
observed = refl

observe-AtMostOneLeader_example : leading.node_id ≡ leading.node_id
observe-AtMostOneLeader_example =
    observe-AtMostOneLeader 0 views registry watched refl observed view view (Memᴰ.head refl)
      (Memᴰ.tail (Memᴰ.head refl)) 1 1 leading leading (Memᴰ.tail (Memᴰ.head refl))
      (Memᴰ.tail (Memᴰ.head refl)) refl refl refl

observe-SameApplied_example : SameApplied following leading 1
observe-SameApplied_example =
    observe-SameApplied 0 views registry watched refl observed view view (Memᴰ.head refl)
      (Memᴰ.tail (Memᴰ.head refl)) 2 1 following leading (Memᴰ.head refl)
      (Memᴰ.tail (Memᴰ.head refl)) 1 (omega arith) (omega arith) (omega arith)

matched : check_matching view ≡ ok none
unfolding check_matching for_each ◌>>=◌ pure raise lift gets modify when first_of leaders
    sorted_nodes filter_leaders sorted_items init last_index has_entry entry_at term_at
matched = refl

last_one : last_index (entry ∷ []) ≡ 1
unfolding last_index
last_one = refl

check_matching-Agree_example : entry_at following.log 1 ≡ entry_at leading.log 1
check_matching-Agree_example =
    check_matching-Agree view matched 2 1 following leading (Memᴰ.head refl)
      (Memᴰ.tail (Memᴰ.head refl)) 1 1 (omega (arith, last_one)) (omega (arith, last_one)) refl
      (omega arith) (omega arith)

-- Each node stands once in a view of two, under its id.
two-IsKeyed :
    (v : ClusterView Memory (Unit {0})) (a b : RaftNode Memory (Unit {0}))
    → v.nodes ≡ (2, a) ∷ (1, b) ∷ []
    → a.node_id ≡ 2
    → b.node_id ≡ 1
    → IsKeyed v
two-IsKeyed v a b two ha hb = record {
  own = λ i n m. elim (places i n m) [
    | inl e ↦ ap (λ p. p.1.node_id) e ∙ ha ∙ sym (ap (λ p. p.0) e)
    | inr e ↦ ap (λ p. p.1.node_id) e ∙ hb ∙ sym (ap (λ p. p.0) e)
  ];
  once = λ i n m mn mm. elim (places i n mn) [
    | inl e ↦ elim (places i m mm) [
      | inl f ↦ ap (λ p. p.1) e ∙ sym (ap (λ p. p.1) f)
      | inr f ↦ absurd (apart i (ap (λ p. p.0) e) (ap (λ p. p.0) f))
    ]
    | inr e ↦ elim (places i m mm) [
      | inl f ↦ absurd (apart i (ap (λ p. p.0) f) (ap (λ p. p.0) e))
      | inr f ↦ ap (λ p. p.1) e ∙ sym (ap (λ p. p.1) f)
    ]
  ];
}
  where
    apart : (i : ℕ) → i ≡ 2 → i ≡ 1 → ⊥
    apart i e f = omega arith

    places :
        (i : NodeId) (n : RaftNode Memory (Unit {0}))
        → Memᴰ (i, n) v.nodes
        → (◌≡◌ {A = NodeId × RaftNode Memory (Unit {0})} (i, n) (2, a))
          ⊎ (◌≡◌ {A = NodeId × RaftNode Memory (Unit {0})} (i, n) (1, b))
    places i n m = elim (Memᴰ.cases_cons (rw two at m)) [
      | inl e ↦ inl e
      | inr rest ↦ elim (Memᴰ.cases_cons rest) [
        | inl e ↦ inr e
        | inr over ↦ absurd (Memᴰ.not-nil over)
      ]
    ]

view-IsKeyed : IsKeyed view
view-IsKeyed = two-IsKeyed view following leading refl refl refl

-- The leader has appended an entry.
abbrev grown : RaftNode Memory (Unit {0})
grown = record leading {
  log = entry ∷ record { term = 1; index = 2; command = put (97 ∷ []) (99 ∷ []) } ∷ [];
  commit_index = 2;
}

abbrev later : ClusterView Memory (Unit {0})
later = record { tick = 9; nodes = (2, following) ∷ (1, grown) ∷ []; history = [] }

later-IsKeyed : IsKeyed later
later-IsKeyed = two-IsKeyed later following grown refl refl refl

abbrev completed : LeaderCompleteness
completed = (check_completeness view (record { committed = []; checked_terms = [] })).1

complete :
    check_completeness view (record { committed = []; checked_terms = [] }) ≡ (ok none, completed)
unfolding check_completeness for_each ◌>>=◌ pure raise lift gets modify when first_of leaders
    sorted_nodes filter_leaders sorted_items init last_index has_entry entry_at term_at
complete = refl

first_committed : lookup 1 completed.committed ≡ some entry
unfolding check_completeness for_each ◌>>=◌ pure raise lift gets modify when first_of leaders
    sorted_nodes filter_leaders sorted_items init last_index has_entry entry_at term_at
first_committed = refl

check_completeness-HasCommitted_example : entry_at leading.log 1 ≡ ok entry
check_completeness-HasCommitted_example =
    check_completeness-HasCommitted view (record { committed = []; checked_terms = [] }) completed
      view-IsKeyed complete 1 leading (Memᴰ.tail (Memᴰ.head refl)) refl (λ h. cc) 1 entry
      (inr first_committed)

abbrev seen_once : LeaderAppendOnly
seen_once = (check_append_only view []).1

abbrev seen_twice : LeaderAppendOnly
seen_twice = (check_append_only later seen_once).1

saw_first : check_append_only view [] ≡ (ok none, seen_once)
unfolding check_append_only for_each ◌>>=◌ pure raise lift gets modify when first_of leaders
    sorted_nodes filter_leaders sorted_items init last_index has_entry entry_at term_at
saw_first = refl

saw_second : check_append_only later seen_once ≡ (ok none, seen_twice)
unfolding check_append_only for_each ◌>>=◌ pure raise lift gets modify when first_of leaders
    sorted_nodes filter_leaders sorted_items init last_index has_entry entry_at term_at
saw_second = refl

check_append_only-kept_example : take (length leading.log) grown.log ≡ leading.log
check_append_only-kept_example =
    check_append_only-kept view later [] seen_once seen_twice view-IsKeyed later-IsKeyed saw_first
      saw_second 1 leading grown (Memᴰ.tail (Memᴰ.head refl)) (Memᴰ.tail (Memᴰ.head refl)) refl refl

abbrev passed_once : MonotonicProgress
passed_once = (check_progress view []).1

abbrev passed_twice : MonotonicProgress
passed_twice = (check_progress later passed_once).1

went_first : check_progress view [] ≡ (ok none, passed_once)
unfolding check_progress for_each ◌>>=◌ pure raise lift gets modify when first_of leaders
    sorted_nodes filter_leaders sorted_items init last_index has_entry entry_at term_at
went_first = refl

went_second : check_progress later passed_once ≡ (ok none, passed_twice)
unfolding check_progress for_each ◌>>=◌ pure raise lift gets modify when first_of leaders
    sorted_nodes filter_leaders sorted_items init last_index has_entry entry_at term_at
went_second = refl

check_progress-monotonic_example :
    (leading.commit_index ≤ grown.commit_index) × (grown.last_applied ≤ grown.commit_index)
check_progress-monotonic_example =
    check_progress-monotonic view later [] passed_once passed_twice view-IsKeyed later-IsKeyed
      went_first went_second 1 leading grown (Memᴰ.tail (Memᴰ.head refl))
      (Memᴰ.tail (Memᴰ.head refl)) refl refl

-- Two stores that hold the same entries, in another order.
abbrev left : KvStore
left = apply (put (98 ∷ []) (50 ∷ [])) (apply (put (97 ∷ []) (49 ∷ [])) Kv.empty)

abbrev right : KvStore
right = apply (put (97 ∷ []) (49 ∷ [])) (apply (put (98 ∷ []) (50 ∷ [])) Kv.empty)

abbrev stores : Stores
stores = (1, left) ∷ (2, right) ∷ []

no_divergence : check stores ≡ []
unfolding check get apply all_keys sorted_texts sorted_items
no_divergence = refl

check-agree_example : get left (97 ∷ []) ≡ get right (97 ∷ [])
check-agree_example =
    check-agree stores no_divergence 1 2 left right (Memᴰ.head refl) (Memᴰ.tail (Memᴰ.head refl))
      (97 ∷ [])
