-- ===== src/Invariants/Completeness/Silent.antt =====
-- What a silent check of leader completeness has seen.
use ground_hog.Prelude.{
  ◌≡◌, ◌≢◌, refl, ◌∙◌, ap, List, [], ◌∷◌, none, some, true, false, ◌&&◌, ◌==◌, not, leb, Memᴰ,
  if◌then◌else◌, arith, Bool-cases, ◌⊎◌, inl, inr,
}
use ground_hog.Prelude.Dict.{Dict, nat_eq, lookup, contains, insert, lookup-insert, lookup-Mem}
use ground_hog.Prelude.Outcome.{ok}
use ground_hog.Prelude.Exec.{pure, gets, modify, lift, when, for_each, ◌>>=◌}
use ground_hog.Prelude.Steps.{
  Preorder, Steps, run-rel, step_rules, bind-ok_elim, bind-rel, lift-ok_elim,
}
use ground_hog.Prelude.Sort.{sorted_items, sorted_items-Mem}
use ground_hog.Prelude.Watch.{
  insert-Known, first_of, silent_elim, Steps-first_of, silent-All, Visit, silent-visited,
}
use ground_hog.Log.{LogEntry, has_entry, entry_at}
use ground_hog.Node.State.{RaftNode}
use ground_hog.Node.Roles.{is_leader}
use ground_hog.Types.{NodeId, Term, Index}
use ground_hog.Invariants.Equality.{entry_eq, entry_eq_iff}
use ground_hog.Invariants.View.{
  ClusterView, leader_lacks, sorted_nodes, leaders, leaders-Mem, IsKeyed, leaders-one,
}
use ground_hog.Invariants.Completeness.{
  LeaderCompleteness, is_id, keep_entry, note_committed, note_node, lacks, check_found, check_entry,
  check_unless, check_leader, check_completeness,
}

-- Another node's id, at whichever term, does not make a node checked.
still_new :
    (term at : Term) (j i : NodeId) (checked_terms : Dict Term NodeId)
    → j ≢ i
    → is_id (lookup at checked_terms) i ≡ false
    → is_id (lookup at (insert term j checked_terms)) i ≡ false
still_new term at j i checked_terms differ h = elim (Bool-cases (term == at)) [
  | inl same ↦
      let found : lookup at (insert term j checked_terms) ≡ some j =
        lookup-insert term at j checked_terms ∙ rw same refl in
      rw found (ground (arith, differ))
  | inr apart ↦
      let found : lookup at (insert term j checked_terms) ≡ lookup at checked_terms =
        lookup-insert term at j checked_terms ∙ rw apart refl in
      rw found h
]

-- What leaves the state as it is.
Frozen : Preorder LeaderCompleteness
Frozen = record { rel = λ s t. s ≡ t; stays = λ s. refl; chain = λ s t u p q. p ∙ q }

module _ {S R : Type 0} where
  Steps-lacks :
      (P : Preorder LeaderCompleteness) (n : RaftNode S R) (i : Index) (e : LogEntry)
      → Steps P (lacks n i e)
  unfolding lacks
  Steps-lacks P n i e = search step_rules depth 7

  Steps-check_found :
      (P : Preorder LeaderCompleteness) (n : RaftNode S R) (i : Index) (e found : LogEntry)
      → Steps P (check_found n i e found)
  unfolding check_found
  Steps-check_found P n i e found = search (step_rules, Steps-lacks) depth 5

  Steps-check_entry :
      (P : Preorder LeaderCompleteness) (n : RaftNode S R) (p : Index × LogEntry)
      → Steps P (check_entry n p)
  unfolding check_entry
  Steps-check_entry P n (i, e) = search (step_rules, Steps-lacks, Steps-check_found) depth 7

  lacks-told :
      (n : RaftNode S R) (i : Index) (e : LogEntry) (s t : LeaderCompleteness)
      → lacks n i e s ≢ (ok none, t)
  unfolding lacks pure
  lacks-told n i e s t h = elim (Bool-cases (has_entry n.log i && leb 1 i)) [
    | inl there ↦ lift-ok_elim (entry_at n.log i) _ s (rw there at h) λ found _ rest.
        let told : ok (some (leader_lacks n.node_id n.current_term e (some found))) ≡ ok none =
          ap (λ r. r.0) rest in
        cc
    | inr missing ↦
        let told : ok (some (leader_lacks n.node_id n.current_term e none)) ≡ ok none =
          ap (λ r. r.0) (rw missing at h) in
        cc
  ]

  check_entry-found :
      (n : RaftNode S R) (p : Index × LogEntry) (s t : LeaderCompleteness)
      → check_entry n p s ≡ (ok none, t)
      → entry_at n.log p.0 ≡ ok p.1
  unfolding check_entry check_found lacks pure
  check_entry-found n (i, e) s t h = elim (Bool-cases (has_entry n.log i)) [
    | inr missing ↦
        let told : ok (some (leader_lacks n.node_id n.current_term e none)) ≡ ok none =
          ap (λ r. r.0) (rw missing at h) in
        cc
    | inl there ↦
        lift-ok_elim (entry_at n.log i) (check_found n i e) s (rw there at h) λ found at_index rest.
          elim (Bool-cases (entry_eq found e)) [
            | inl same ↦ let one : found ≡ e = (entry_eq_iff found e).0 same in at_index ∙ ap ok one
            | inr other ↦ absurd (lacks-told n i e s t (rw other at rest))
          ]
  ]

  -- The state after a visit to a leader.
  checked : RaftNode S R → LeaderCompleteness → LeaderCompleteness
  checked n s =
      if is_id (lookup n.current_term s.checked_terms) n.node_id
      then s
      else record s { checked_terms = insert n.current_term n.node_id s.checked_terms }

  check_leader-checked :
      (n : RaftNode S R) (s t : LeaderCompleteness)
      → check_leader n s ≡ (ok none, t)
      → checked n s ≡ t
  unfolding checked Frozen check_leader check_unless gets modify pure ◌>>=◌
  check_leader-checked n s t e =
      elim (Bool-cases (is_id (lookup n.current_term s.checked_terms) n.node_id)) [
        | inl known ↦ rw known (ap (λ r. r.1) (rw known at e))
        | inr new ↦ rw new (
            run-rel Frozen (first_of (check_entry n) (sorted_items s.committed))
              (Steps-first_of (check_entry n) _ (Steps-check_entry Frozen n)) (rw new at e))
      ]

  -- Every entry of the dict is in the node's log.
  abbrev HasAll : RaftNode S R → Dict Index LogEntry → Type 0
  HasAll n committed =
      (index : Index) (e : LogEntry) → Memᴰ (index, e) committed → entry_at n.log index ≡ ok e

  check_leader-HasAll :
      (n : RaftNode S R) (s t : LeaderCompleteness)
      → check_leader n s ≡ (ok none, t)
      → is_id (lookup n.current_term s.checked_terms) n.node_id ≡ false
      → HasAll n s.committed
  unfolding check_leader check_unless gets modify pure ◌>>=◌
  check_leader-HasAll n s t e new index entry m =
      silent-All Frozen (λ p t. entry_at n.log p.0 ≡ ok p.1) (check_entry n)
        (Steps-check_entry Frozen n) (λ p s t k h. h) (check_entry-found n)
        (sorted_items s.committed) _ t (rw new at e) (index, entry)
        (sorted_items-Mem s.committed (index, entry) m)

  visit_HasAll :
      (n : RaftNode S R) (c : Dict Index LogEntry)
      → Visit check_leader
          (λ n. n.node_id)
          n
          (λ s.
            (s.committed ≡ c) × (is_id (lookup n.current_term s.checked_terms) n.node_id ≡ false))
          (λ t. HasAll n c)
  unfolding checked
  visit_HasAll n c = record {
    other = λ b s t differ e h.
        elim (Bool-cases (is_id (lookup b.current_term s.checked_terms) b.node_id)) [
          | inl known ↦
              let same : s ≡ t = rw known at (check_leader-checked b s t e) in rw (← same) h
          | inr new ↦
              let same : record s {
                checked_terms = insert b.current_term b.node_id s.checked_terms;
              }
                  ≡ t =
                rw new at (check_leader-checked b s t e) in
              rw (← same) (
                h.0,
                still_new b.current_term n.current_term b.node_id n.node_id s.checked_terms differ
                    h.1,
              )
        ];
    own = λ s t e h. rw h.0 at (check_leader-HasAll n s t e h.1);
    keeps = λ b s t one e h. h;
  }

-- What the first loop keeps: the terms that were checked, and every committed entry that is known.
record Notes (s t : LeaderCompleteness) : Type 0 where
  pub same_terms : s.checked_terms ≡ t.checked_terms
  pub known :
      (index : Index) (e : LogEntry)
      → lookup index s.committed ≡ some e
      → lookup index t.committed ≡ some e

noted : Preorder LeaderCompleteness
noted = record {
  rel = Notes;
  stays = λ s. record { same_terms = refl; known = λ i e h. h };
  chain = λ s t u p q. record {
    same_terms = p.same_terms ∙ q.same_terms;
    known = λ i e h. q.known i e (p.known i e h);
  };
}

module _ {S R : Type 0} where
  keep-Notes :
      (n : RaftNode S R) (i : Index) (s : LeaderCompleteness)
      → lookup i s.committed ≡ none
      → Notes s ((lift (entry_at n.log i) >>= keep_entry i) s).1
  unfolding noted lift keep_entry modify
  keep-Notes n i s fresh =
      bind-rel noted (lift (entry_at n.log i)) (keep_entry i) s (noted.stays s) λ e t read.
        let same : s ≡ t = ap (λ r. r.1) read in
        rw (← same) (record { same_terms = refl; known = insert-Known i e s.committed fresh })

  Steps-note_committed : (n : RaftNode S R) (i : Index) → Steps noted (note_committed n i)
  unfolding noted note_committed gets modify when ◌>>=◌
  Steps-note_committed n i = record {
    at = λ s. elim (Bool-cases (not (contains i s.committed) && has_entry n.log i)) [
      | inr known ↦ rw known (noted.stays s)
      | inl new ↦ rw new (keep-Notes n i s (ground arith))
    ];
  }

  Steps-note_node : (n : RaftNode S R) → Steps noted (note_node n)
  unfolding note_node
  Steps-note_node n = search (step_rules, Steps-note_committed) depth 4

  check_leader-committed :
      (n : RaftNode S R) (s t : LeaderCompleteness)
      → check_leader n s ≡ (ok none, t)
      → s.committed ≡ t.committed
  unfolding checked
  check_leader-committed n s t e =
      elim (Bool-cases (is_id (lookup n.current_term s.checked_terms) n.node_id)) [
        | inl known ↦ ap (λ c. c.committed) (rw known at (check_leader-checked n s t e))
        | inr new ↦ ap (λ c. c.committed) (rw new at (check_leader-checked n s t e))
      ]

  check_leaders-committed :
      (ns : List (RaftNode S R)) (s t : LeaderCompleteness)
      → first_of check_leader ns s ≡ (ok none, t)
      → s.committed ≡ t.committed
  unfolding first_of pure
  check_leaders-committed [] s t e = ap (λ r. r.1.committed) e
  check_leaders-committed (n ∷ ns) s t e =
      silent_elim check_leader n ns s t e
        λ m one rest. check_leader-committed n s m one ∙ check_leaders-committed ns m t rest

  -- A silent check has seen leader completeness: a running leader that was not checked in its term
  -- before has, at its index, every entry that the checker knew to be committed before the check
  -- or knows to be committed after it.
  pub check_completeness-HasCommitted :
      (v : ClusterView S R) (s t : LeaderCompleteness)
      → IsKeyed v
      → check_completeness v s ≡ (ok none, t)
      → (i : NodeId) (n : RaftNode S R) → Memᴰ (i, n) v.nodes
      → (n.running && is_leader n.role) ≡ true
      → lookup n.current_term s.checked_terms ≢ some n.node_id
      → (index : Index) (e : LogEntry)
      → (lookup index s.committed ≡ some e) ⊎ (lookup index t.committed ≡ some e)
      → entry_at n.log index ≡ ok e
  unfolding check_completeness noted
  check_completeness-HasCommitted v s t kv silent i n m leads new index e h =
      bind-ok_elim (for_each note_node (sorted_nodes v)) (λ _. first_of check_leader (leaders v)) s
        silent
        λ _ mid one rest.
          let notes : Notes s mid =
            run-rel noted (for_each note_node (sorted_nodes v))
              (search (step_rules, Steps-note_node) depth 4) one in
          let visited : Memᴰ n (leaders v) = leaders-Mem v i n m leads in
          let unchecked : is_id (lookup n.current_term s.checked_terms) n.node_id ≡ false =
            ground (arith, new) in
          let has : HasAll n mid.committed =
            silent-visited check_leader (λ n. n.node_id) n _ _ (visit_HasAll n mid.committed)
              (leaders v) (λ b mb same. leaders-one v kv b n mb visited same) mid t rest visited
              (refl, rw notes.same_terms at unchecked) in
          let known : lookup index mid.committed ≡ some e = elim h [
            | inl before ↦ notes.known index e before
            | inr after ↦
                ap (λ d. lookup index d) (check_leaders-committed (leaders v) mid t rest) ∙ after
          ] in
          has index e (lookup-Mem index e mid.committed known)
