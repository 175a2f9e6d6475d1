-- ===== src/Invariants/AppendOnly.antt =====
-- groundhog/invariants/safety.py, `class LeaderAppendOnly`.
use ground_hog.Prelude.{
  ◌≡◌, ◌≢◌, ◌↔◌, refl, sym, ◌∙◌, ap, List, [], ◌∷◌, Option, none, some, Bool, true, false, ◌&&◌,
  ◌||◌, ◌==◌, Memᴰ, if◌then◌else◌, arith, Bool-cases, Option-cases, inl, inr, take, length, map,
}
use mathlib.Core.List.Memᴰ
use ground_hog.Prelude.Dict.{Dict, nat_eq, lookup, insert, erase, lookup-insert, lookup-erase}
use ground_hog.Prelude.Outcome.{ok}
use ground_hog.Prelude.Exec.{Exec, pure, gets, modify, ◌>>=◌, ◌>>◌}
use ground_hog.Prelude.Steps.{bind-ok_elim}
use ground_hog.Prelude.Watch.{first_of, Visit, silent-visited}
use ground_hog.Log.{LogEntry}
use ground_hog.Node.State.{RaftNode}
use ground_hog.Node.Roles.{is_leader}
use ground_hog.Types.{NodeId}
use ground_hog.Invariants.Equality.{entry_eq, entry_eq_iff}
use ground_hog.Invariants.View.{
  ClusterView, Problem, leader_changed, leaders, leaders-Mem, IsKeyed, leaders-one,
}

-- `LeaderAppendOnly.seen`
abbrev pub LeaderAppendOnly : Type 0
LeaderAppendOnly = Dict NodeId (List LogEntry)

-- Equality of lists of entries.
abbrev pub entries_eq : List LogEntry → List LogEntry → Bool
entries_eq [] [] = true
entries_eq [] (f ∷ fs) = false
entries_eq (e ∷ es) [] = false
entries_eq (e ∷ es) (f ∷ fs) = entry_eq e f && entries_eq es fs

entries_eq_iff : (es fs : List LogEntry) → (entries_eq es fs ≡ true) ↔ (es ≡ fs)
entries_eq_iff [] [] = ground arith
entries_eq_iff [] (f ∷ fs) = ground arith
entries_eq_iff (e ∷ es) [] = ground arith
entries_eq_iff (e ∷ es) (f ∷ fs) = ground (arith, entry_eq_iff e f, entries_eq_iff es fs)

-- `node_id in leading`, over the keys of `leading`
abbrev pub is_in : NodeId → List NodeId → Bool
is_in i [] = false
is_in i (j ∷ js) = i == j || is_in i js

-- The last loop: who does not lead is forgotten.
forget : List NodeId → List NodeId → LeaderAppendOnly → LeaderAppendOnly
forget leading [] seen = seen
forget leading (i ∷ ids) seen = forget leading ids (if is_in i leading then seen else erase i seen)

module _ {S R : Type 0} where
  -- The body of the first loop, after `self.seen.get`.
  compare_log : RaftNode S R → Option (List LogEntry) → Exec LeaderAppendOnly (Option Problem)
  compare_log node none = do modify (insert node.node_id node.log); pure none
  compare_log node (some previous) =
      if entries_eq (take (length previous) node.log) previous
      then (modify (insert node.node_id node.log) >> pure none)
      else pure (some (leader_changed node.node_id node.current_term (length previous)))

  note_log : RaftNode S R → Exec LeaderAppendOnly (Option Problem)
  unfolding compare_log
  note_log node = gets (lookup node.node_id) >>= compare_log node

  leading : ClusterView S R → List NodeId
  leading view = map (λ n. n.node_id) (leaders view)

  forget_others : ClusterView S R → Option Problem → Exec LeaderAppendOnly (Option Problem)
  unfolding forget leading
  forget_others view none = do
    modify (λ seen. forget (leading view) (map (λ p. p.0) seen) seen)
    pure none
  forget_others view (some p) = pure (some p)

  -- `LeaderAppendOnly.observe`
  unfoldable pub check_append_only : ClusterView S R → Exec LeaderAppendOnly (Option Problem)
  unfolding note_log forget_others
  check_append_only view = first_of note_log (leaders view) >>= forget_others view

forget-leading :
    (leading ids : List NodeId) (seen : LeaderAppendOnly) (j : NodeId)
    → is_in j leading ≡ true
    → lookup j (forget leading ids seen) ≡ lookup j seen
unfolding forget
forget-leading leading [] seen j h = refl
forget-leading leading (i ∷ ids) seen j h = elim (Bool-cases (is_in i leading)) [
  | inl leads ↦ rw leads (forget-leading leading ids seen j h)
  | inr other ↦
      let apart : i ≢ j = λ same. let clash : is_in j leading ≡ false = rw same at other in cc in
      rw other
        (forget-leading leading ids (erase i seen) j h ∙ ground (arith, lookup-erase i j seen))
]

module _ {S R : Type 0} where
  leading-in :
      (n : RaftNode S R) (ns : List (RaftNode S R))
      → Memᴰ n ns
      → is_in n.node_id (map (λ n. n.node_id) ns) ≡ true
  leading-in n [] m = absurd (Memᴰ.not-nil m)
  leading-in n (x ∷ ns) (Memᴰ.head same) =
      let one : n.node_id ≡ x.node_id = ap (λ n. n.node_id) same in ground arith
  leading-in n (x ∷ ns) (Memᴰ.tail m) = let below = leading-in n ns m in ground arith

  -- What a silent visit leaves of the node, and what it found.
  record Extends (n : RaftNode S R) (s t : LeaderAppendOnly) : Type 0 where
    pub recorded : (j : NodeId) → lookup j t ≡ (if n.node_id == j then some n.log else lookup j s)
    pub extends :
        (previous : List LogEntry)
        → lookup n.node_id s ≡ some previous
        → take (length previous) n.log ≡ previous

  note_log-Extends :
      (n : RaftNode S R) (s t : LeaderAppendOnly) → note_log n s ≡ (ok none, t) → Extends n s t
  unfolding note_log compare_log gets modify pure ◌>>=◌
  note_log-Extends n s t e = elim (Option-cases (lookup n.node_id s)) [
    | inl fresh ↦
        let stored : insert n.node_id n.log s ≡ t = ap (λ r. r.1) (rw fresh at e) in
        record {
          recorded = λ j. rw (← stored) (lookup-insert n.node_id j n.log s);
          extends = λ previous h. cc;
        }
    | inr (before, known) ↦ elim (Bool-cases (entries_eq (take (length before) n.log) before)) [
      | inl same ↦
          let stored : insert n.node_id n.log s ≡ t = ap (λ r. r.1) (rw (known, same) at e) in
          record {
            recorded = λ j. rw (← stored) (lookup-insert n.node_id j n.log s);
            extends = λ previous h.
                let one : before ≡ previous = cc in
                rw (← one) ((entries_eq_iff (take (length before) n.log) before).0 same);
          }
      | inr other ↦
          let told : ok (some (leader_changed n.node_id n.current_term (length before))) ≡ ok none =
            ap (λ r. r.0) (rw (known, other) at e) in
          cc
    ]
  ]

  visit_recorded :
      (n : RaftNode S R)
      → Visit note_log (λ n. n.node_id) n (λ s. Unit) (λ t. lookup n.node_id t ≡ some n.log)
  visit_recorded n = record {
    other = λ b s t differ e h. tt;
    own = λ s t e h. let p = (note_log-Extends n s t e).recorded n.node_id in ground arith;
    keeps = λ b s t one e h. elim (Bool-cases (b.node_id == n.node_id)) [
      | inl same ↦
          let here : b ≡ n = one (ground arith) in
          let p = (note_log-Extends n s t (rw here at e)).recorded n.node_id in ground arith
      | inr other ↦ let p = (note_log-Extends b s t e).recorded n.node_id in rw other at p ∙ h
    ];
  }

  visit_extends :
      (n : RaftNode S R) (previous : List LogEntry)
      → Visit note_log
          (λ n. n.node_id)
          n
          (λ s. lookup n.node_id s ≡ some previous)
          (λ t. take (length previous) n.log ≡ previous)
  visit_extends n previous = record {
    other = λ b s t differ e h.
        let p = (note_log-Extends b s t e).recorded n.node_id in
        let apart : (b.node_id == n.node_id) ≡ false = ground arith in (rw apart at p) ∙ h;
    own = λ s t e h. (note_log-Extends n s t e).extends previous h;
    keeps = λ b s t one e h. h;
  }

  -- A silent check went silently through its leaders, and then forgot the others.
  silent_check_elim :
      {C : Type 0} (v : ClusterView S R) (s t : LeaderAppendOnly)
      → check_append_only v s ≡ (ok none, t)
      → ((m : LeaderAppendOnly)
          → first_of note_log (leaders v) s ≡ (ok none, m)
          → t ≡ forget (leading v) (map (λ p. p.0) m) m
          → C)
      → C
  unfolding check_append_only forget_others modify pure ◌>>=◌
  silent_check_elim {C} v s t e k =
      bind-ok_elim (first_of note_log (leaders v)) (forget_others v) s e
        (λ o m one rest. go o m one rest)
    where
      go :
          (o : Option Problem) (m : LeaderAppendOnly)
          → first_of note_log (leaders v) s ≡ (ok o, m)
          → forget_others v o m ≡ (ok none, t)
          → C
      go none m one rest = k m one (sym (ap (λ r. r.1) rest))
      go (some p) m one rest = let told : ok (some p) ≡ ok none = ap (λ r. r.0) rest in cc

  -- Where the checker stayed silent over two views, one after the other, a node that runs as a
  -- leader in both still has, in front, the whole log that it had: it overwrote and deleted nothing.
  pub check_append_only-kept :
      (v w : ClusterView S R) (s t u : LeaderAppendOnly)
      → IsKeyed v
      → IsKeyed w
      → check_append_only v s ≡ (ok none, t)
      → check_append_only w t ≡ (ok none, u)
      → (i : NodeId) (a b : RaftNode S R) → Memᴰ (i, a) v.nodes
      → Memᴰ (i, b) w.nodes
      → (a.running && is_leader a.role) ≡ true
      → (b.running && is_leader b.role) ≡ true
      → take (length a.log) b.log ≡ a.log
  unfolding leading
  check_append_only-kept v w s t u kv kw ev ew i a b ma mb la lb =
      let va = leaders-Mem v i a ma la in
      let vb = leaders-Mem w i b mb lb in
      let same : a.node_id ≡ b.node_id = kv.own i a ma ∙ sym (kw.own i b mb) in
      silent_check_elim v s t ev λ m one forgot. silent_check_elim w t u ew λ m' two _.
        let recorded : lookup a.node_id m ≡ some a.log =
          silent-visited note_log (λ n. n.node_id) a _ _ (visit_recorded a) (leaders v)
            (λ n mn e. leaders-one v kv n a mn va e) s m one va tt in
        let remembered : lookup a.node_id t ≡ some a.log =
          ap (lookup a.node_id) forgot
          ∙ forget-leading (leading v) (map (λ p. p.0) m) m a.node_id (leading-in a (leaders v) va)
          ∙ recorded in
        silent-visited note_log (λ n. n.node_id) b _ _ (visit_extends b a.log) (leaders w)
          (λ n mn e. leaders-one w kw n b mn vb e) t m' two vb (rw same at remembered)
