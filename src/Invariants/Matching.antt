-- ===== src/Invariants/Matching.antt =====
-- groundhog/invariants/safety.py, `class LogMatching`. The checker has no state.
use ground_hog.Prelude.{
  ℕ, zero, suc, ◌+◌, ◌-◌, ◌≤◌, ◌<◌, min, ◌≡◌, ◌≢◌, refl, sym, ◌∙◌, List, [], ◌∷◌, Option, none,
  some, ◌==◌, Memᴰ, if◌then◌else◌, arith, Bool-cases, inl, inr, ltb,
}
use mathlib.Core.List.Memᴰ
use ground_hog.Prelude.Outcome.{Outcome, ok, raised, ◌>>=◌, >>=-ok_elim}
use ground_hog.Log.{RaftLog, last_index, entry_at, term_at}
use ground_hog.Node.State.{RaftNode}
use ground_hog.Types.{NodeId, Term, Index}
use ground_hog.Invariants.Equality.{entry_eq, entry_eq_iff}
use ground_hog.Invariants.View.{
  ClusterView, Problem, different_commands, already_differ, sorted_nodes, sorted_nodes-Mem,
}

-- The loop that looks for `diverged_at`, from an index on: one past the last index when it
-- finds none.
first_difference : RaftLog → RaftLog → Index → ℕ → Outcome Index
first_difference left right index zero = ok index
first_difference left right index (suc count) = do
  l ← entry_at left index
  r ← entry_at right index
  let rest = first_difference left right (index + 1) count
  if entry_eq l r then rest else ok index

abbrev or_go_on : Outcome (Option Problem) → Option Problem → Outcome (Option Problem)
or_go_on rest none = rest
or_go_on rest (some p) = ok (some p)

module _ {S R : Type 0} where
  conflict : RaftNode S R → RaftNode S R → Term → Index → Index → Problem
  conflict left right term index diverged_at =
      if index == diverged_at
      then different_commands left.node_id right.node_id term index
      else already_differ left.node_id right.node_id term index diverged_at

  -- The loop from `diverged_at` on.
  later_match : RaftNode S R → RaftNode S R → Index → Index → ℕ → Outcome (Option Problem)
  unfolding conflict
  later_match left right diverged_at index zero = ok none
  later_match left right diverged_at index (suc count) = do
    l ← term_at left.log index
    r ← term_at right.log index
    let rest = later_match left right diverged_at (index + 1) count
    if l == r then ok (some (conflict left right l index diverged_at)) else rest

  match_pair : RaftNode S R → RaftNode S R → Outcome (Option Problem)
  unfolding first_difference later_match
  match_pair left right =
      let shared = min (last_index left.log) (last_index right.log) in
      if shared == 0
      then ok none
      else (first_difference left.log right.log 1 shared >>= λ diverged_at.
          later_match left right diverged_at diverged_at (shared + 1 - diverged_at))

  match_with : RaftNode S R → List (RaftNode S R) → Outcome (Option Problem)
  unfolding match_pair
  match_with left [] = ok none
  match_with left (right ∷ nodes) = match_pair left right >>= or_go_on (match_with left nodes)

  match_all : List (RaftNode S R) → Outcome (Option Problem)
  unfolding match_with
  match_all [] = ok none
  match_all (left ∷ nodes) = match_with left nodes >>= or_go_on (match_all nodes)

  -- `LogMatching.observe`
  unfoldable pub check_matching : ClusterView S R → Outcome (Option Problem)
  unfolding match_all
  check_matching view = match_all (sorted_nodes view)

-- A loop that returned None went through its first item and through the rest.
go_on_elim {κ} :
    {C : Type κ} (m rest : Outcome (Option Problem))
    → (m >>= or_go_on rest) ≡ ok none
    → (m ≡ ok none → rest ≡ ok none → C)
    → C
go_on_elim (ok none) rest e k = k refl e
go_on_elim (ok (some p)) rest e k = cc
go_on_elim (raised x) rest e k = cc

-- Before the place that the loop finds, the logs agree.
record Diverges (left right : RaftLog) (first count d : Index) : Type 0 where
  pub low : first ≤ d
  pub high : d ≤ first + count
  pub agree : (j : Index) → first ≤ j → j < d → entry_at left j ≡ entry_at right j

first_difference-Diverges :
    (left right : RaftLog) (first count d : ℕ)
    → first_difference left right first count ≡ ok d
    → Diverges left right first count d
unfolding first_difference
first_difference-Diverges left right first zero d e =
    let same : first ≡ d = cc in
    record { low = omega arith; high = omega arith; agree = λ j l h. absurd (omega arith) }
first_difference-Diverges left right first (suc count) d e =
    >>=-ok_elim (entry_at left first) _ e λ l hl e'.
      >>=-ok_elim (entry_at right first) _ e' λ r hr e''. elim (Bool-cases (entry_eq l r)) [
        | inl same ↦
            let rest = first_difference-Diverges left right (first + 1) count d (rw same at e'') in
            let here : entry_at left first ≡ entry_at right first =
              ground (arith, entry_eq_iff l r) in
            record {
              low = omega (arith, rest.low);
              high = omega (arith, rest.high);
              agree = λ j low high. elim (Bool-cases (j == first)) [
                | inl at_first ↦ let place : first ≡ j = ground arith in rw place at here
                | inr later ↦ rest.agree j (ground arith) high
              ];
            }
        | inr differ ↦
            let place : ok first ≡ ok d = rw differ at e'' in
            let same : first ≡ d = cc in
            record { low = omega arith; high = omega arith; agree = λ j l h. absurd (omega arith) }
      ]

module _ {S R : Type 0} where
  -- A silent second loop met no two equal terms.
  later_match-differ :
      (a b : RaftNode S R) (d first count : ℕ)
      → later_match a b d first count ≡ ok none
      → (k : Index) → first ≤ k
      → k < first + count
      → term_at a.log k ≢ term_at b.log k
  unfolding later_match
  later_match-differ a b d first zero e k low high same = omega arith
  later_match-differ a b d first (suc count) e k low high same =
      >>=-ok_elim (term_at a.log first) _ e λ l hl e'.
        >>=-ok_elim (term_at b.log first) _ e' λ r hr e''. elim (Bool-cases (l == r)) [
          | inl equal ↦
              let told : ok (some (conflict a b l first d)) ≡ ok none = rw equal at e'' in cc
          | inr differ ↦ elim (Bool-cases (k == first)) [
            | inl at_first ↦
                let place : k ≡ first = ground arith in
                let one : term_at a.log first ≡ term_at b.log first = rw place at same in
                let terms : ok l ≡ ok r = sym hl ∙ one ∙ hr in
                let equal : l ≡ r = cc in ground arith
            | inr later ↦
                later_match-differ a b d (first + 1) count (rw differ at e'') k (ground arith)
                  (omega arith) same
          ]
        ]

  -- Where the two terms at an index are the same, so are the entries up to there.
  record Agree (a b : RaftNode S R) : Type 0 where
    pub agree :
        (k j : Index)
        → k ≤ last_index a.log
        → k ≤ last_index b.log
        → term_at a.log k ≡ term_at b.log k
        → 1 ≤ j
        → j ≤ k
        → entry_at a.log j ≡ entry_at b.log j

  match_pair-Agree : (a b : RaftNode S R) → match_pair a b ≡ ok none → Agree a b
  unfolding match_pair
  match_pair-Agree a b e =
      let shared : ℕ = min (last_index a.log) (last_index b.log) in
      record {
        agree = λ k j ha hb same low high. elim (Bool-cases (shared == 0)) [
          | inl none_shared ↦ absurd (ground arith)
          | inr some_shared ↦
              >>=-ok_elim (first_difference a.log b.log 1 shared) _ (rw some_shared at e)
                λ d found rest.
                  let split = first_difference-Diverges a.log b.log 1 shared d found in
                  elim (Bool-cases (ltb k d)) [
                    | inl before ↦ split.agree j low (ground arith)
                    | inr past ↦ absurd (
                        later_match-differ a b d d (shared + 1 - d) rest k (ground arith)
                          (ground (arith, split.high)) same)
                  ]
        ];
      }

  match_with-Agree :
      (a b : RaftNode S R) (nodes : List (RaftNode S R))
      → match_with a nodes ≡ ok none
      → Memᴰ b nodes
      → Agree a b
  unfolding match_with
  match_with-Agree a b [] e m = absurd (Memᴰ.not-nil m)
  match_with-Agree a b (n ∷ nodes) e m =
      go_on_elim (match_pair a n) (match_with a nodes) e λ one rest. elim (Memᴰ.cases_cons m) [
        | inl same ↦ rw same (match_pair-Agree a n one)
        | inr below ↦ match_with-Agree a b nodes rest below
      ]

  Agree-sym : (a b : RaftNode S R) → Agree a b → Agree b a
  Agree-sym a b h = record {
    agree = λ k j ha hb same low high. sym (h.agree k j hb ha (sym same) low high);
  }

  match_all-Agree :
      (a b : RaftNode S R) (nodes : List (RaftNode S R))
      → match_all nodes ≡ ok none
      → Memᴰ a nodes
      → Memᴰ b nodes
      → Agree a b
  unfolding match_all
  match_all-Agree a b [] e ma mb = absurd (Memᴰ.not-nil ma)
  match_all-Agree a b (n ∷ nodes) e ma mb =
      go_on_elim (match_with n nodes) (match_all nodes) e λ one rest. elim (Memᴰ.cases_cons ma) [
        | inl here ↦ elim (Memᴰ.cases_cons mb) [
          | inl also ↦ rw (here, also) (record { agree = λ k j ha hb same low high. refl })
          | inr below ↦ rw here (match_with-Agree n b nodes one below)
        ]
        | inr later ↦ elim (Memᴰ.cases_cons mb) [
          | inl here ↦ rw here (Agree-sym n a (match_with-Agree n a nodes one later))
          | inr also ↦ match_all-Agree a b nodes rest later also
        ]
      ]

  -- A silent check has seen the log matching property: where the logs of two nodes of the view
  -- have entries of the same term at an index, every entry up to there is the same in both.
  pub check_matching-Agree :
      (v : ClusterView S R)
      → check_matching v ≡ ok none
      → (i j : NodeId) (a b : RaftNode S R) → Memᴰ (i, a) v.nodes
      → Memᴰ (j, b) v.nodes
      → (index below : Index) → index ≤ last_index a.log
      → index ≤ last_index b.log
      → term_at a.log index ≡ term_at b.log index
      → 1 ≤ below
      → below ≤ index
      → entry_at a.log below ≡ entry_at b.log below
  unfolding check_matching
  check_matching-Agree v e i j a b ma mb =
      (match_all-Agree a b (sorted_nodes v) e (sorted_nodes-Mem v i a ma)
        (sorted_nodes-Mem v j b mb)).agree
