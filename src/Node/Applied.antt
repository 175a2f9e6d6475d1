-- ===== src/Node/Applied.antt =====
-- The all-servers apply rule: every committed entry is applied once, in the order of the log.
use ground_hog.Prelude.{
  ℕ, zero, suc, ◌+◌, ◌-◌, ◌≤◌, ◌≡◌, refl, ◌∙◌, ap, sym, List, [], ◌∷◌, ◌++◌, Option, none, some,
  true, ltb, arith, take, drop, get_elem?,
}
use ground_hog.Prelude.Outcome.{ok, Outcome}
use ground_hog.Prelude.Dict.{lookup, erase, nat_eq}
use ground_hog.Prelude.Exec.{gets, modify, lift, pure, ◌>>=◌}
use ground_hog.Prelude.Steps.{gets-ok, bind-returns}
use ground_hog.Kv
use ground_hog.Kv.{KvStore}
use ground_hog.Log.{LogEntry, last_index, entry_at, has_entry}
use ground_hog.Log.Contiguous.{IsContiguous, entry_at-found, entry_at-get_elem?}
use ground_hog.Types.{NodeId, Index}
use ground_hog.Node.State.{RaftNode, Action, trace, applied}
use ground_hog.Node.Plumbing.{send, write_trace, perform}
use ground_hog.Node.Roles.{pay, apply_next, apply_round, apply_rounds, apply_committed}

-- The store after the entries are applied one by one.
abbrev pub apply_all : List LogEntry → KvStore → KvStore
apply_all [] s = s
apply_all (e ∷ es) s = apply_all es (Kv.apply e.command s)

drop-get_elem? :
    (i : ℕ) (xs : List LogEntry) (e : LogEntry)
    → get_elem? xs i ≡ some e
    → drop i xs ≡ e ∷ drop (suc i) xs
drop-get_elem? zero (x ∷ xs) e h = let same : x ≡ e = cc in ap (λ y. y ∷ xs) same
drop-get_elem? (suc i) (x ∷ xs) e h = drop-get_elem? i xs e h
drop-get_elem? zero [] e h = cc
drop-get_elem? (suc i) [] e h = cc

module _ {S R : Type 0} where
  -- A run that returned, with everything of the node that the apply rule is about.
  pub record Applies (n : RaftNode S R) (r : Outcome (Unit {0}) × RaftNode S R) (last : Index)
      (kv : KvStore) : Type 0 where
    pub returns : r.0 ≡ ok tt
    pub last_applied : r.1.last_applied ≡ last
    pub store : r.1.kv ≡ kv
    pub commit_index : r.1.commit_index ≡ n.commit_index
    pub log : r.1.log ≡ n.log

  pay-Applies :
      (o : Option (NodeId × ℕ)) (n : RaftNode S R) → Applies n (pay o n) n.last_applied n.kv
  unfolding pay send write_trace perform modify ◌>>=◌ pure
  pay-Applies none n = record {
    returns = refl;
    last_applied = refl;
    store = refl;
    commit_index = refl;
    log = refl;
  }
  pay-Applies (some p) n = record {
    returns = refl;
    last_applied = refl;
    store = refl;
    commit_index = refl;
    log = refl;
  }

  apply_next-Applies :
      (n : RaftNode S R) (e : LogEntry)
      → entry_at n.log (n.last_applied + 1) ≡ ok e
      → Applies n (apply_next n) (n.last_applied + 1) (Kv.apply e.command n.kv)
  unfolding apply_next write_trace perform modify gets lift ◌>>=◌
  apply_next-Applies n e found =
      let paid = pay-Applies (lookup e.index n.pending_clients) (record n {
        last_applied = n.last_applied + 1;
        kv = Kv.apply e.command n.kv;
        pending_clients = erase e.index n.pending_clients;
        effects = n.effects ++ trace (applied e.index e.command) ∷ [];
      }) in
      rw found (record {
        returns = paid.returns;
        last_applied = paid.last_applied;
        store = paid.store;
        commit_index = paid.commit_index;
        log = paid.log;
      })

  -- A round that finds the loop's test true and returns is followed by the rest.
  apply_round-goes_on :
      (rest : Action S R (Unit {0})) (n : RaftNode S R)
      → ltb n.last_applied n.commit_index ≡ true
      → (apply_next n).0 ≡ ok tt
      → apply_round rest n ≡ rest (apply_next n).1
  unfolding apply_round
  apply_round-goes_on rest n busy done =
      sym (gets-ok (λ n. n) _ n refl) ∙ rw busy (bind-returns apply_next (λ _. rest) n done)

  apply_rounds-Applies :
      (k : ℕ) (n : RaftNode S R)
      → IsContiguous n.log
      → n.last_applied + k ≡ n.commit_index
      → n.commit_index ≤ last_index n.log
      → Applies n
          (apply_rounds k n)
          n.commit_index
          (apply_all (take k (drop n.last_applied n.log)) n.kv)
  unfolding apply_rounds apply_round pure gets has_entry
  apply_rounds-Applies zero n h reach inside = record {
    returns = refl;
    last_applied = omega arith;
    store = refl;
    commit_index = refl;
    log = refl;
  }
  apply_rounds-Applies (suc k) n h reach inside =
      let (e, found, at) =
        entry_at-found n.log (n.last_applied + 1) h (omega arith) (ground arith) in
      let one = apply_next-Applies n e found in
      let m = (apply_next n).1 in
      let rest =
        apply_rounds-Applies k m (rw one.log h)
          (rw (one.last_applied, one.commit_index) (omega arith))
          (rw (one.log, one.commit_index) inside) in
      let ahead : drop n.last_applied n.log ≡ e ∷ drop (suc n.last_applied) n.log =
        drop-get_elem? n.last_applied n.log e
          (ground (arith, entry_at-get_elem? n.log (n.last_applied + 1) e found)) in
      let run : apply_round (apply_rounds k) n ≡ apply_rounds k m =
        apply_round-goes_on (apply_rounds k) n (ground arith) one.returns in
      let next : n.last_applied + 1 ≡ suc n.last_applied = omega arith in
      rw (run, ahead)
        (record {
          returns = rest.returns;
          last_applied = rest.last_applied ∙ one.commit_index;
          store = rest.store ∙ rw (one.last_applied, one.store, one.log, next) refl;
          commit_index = rest.commit_index ∙ one.commit_index;
          log = rest.log ∙ one.log;
        })

  -- On a contiguous log, with `last_applied` at most the commit index and that at most the last
  -- index, the apply rule returns, `last_applied` is then the commit index, and the store is the
  -- old one with the entries in between applied in the order of the log; the commit index and the
  -- log are as before.
  pub apply_committed-Applies :
      (n : RaftNode S R)
      → IsContiguous n.log
      → n.last_applied ≤ n.commit_index
      → n.commit_index ≤ last_index n.log
      → Applies n
          (apply_committed n)
          n.commit_index
          (apply_all (take (n.commit_index - n.last_applied) (drop n.last_applied n.log)) n.kv)
  unfolding apply_committed gets ◌>>=◌
  apply_committed-Applies n h behind inside =
      apply_rounds-Applies (n.commit_index - n.last_applied) n h (omega arith) inside
