-- ===== src/Node/Durable/Handled.antt =====
-- Durability through each whole handler, and through the dispatch of any message.
use ground_hog.Prelude.{
  ℕ, ◌+◌, ◌≤◌, ◌≡◌, ◌≢◌, refl, ap, sym, ◌∙◌, List, [], ◌∷◌, ◌++◌, some, Bool, true, false, ltb, leb,
  if◌then◌else◌, arith, Bool-cases, inl, inr, append-nil,
}
use mathlib.Core.Path.{subst}
use ground_hog.Prelude.Outcome.{Outcome, ok, raised}
use ground_hog.Prelude.Exec.{gets, modify, when, lift, pure, ◌>>=◌}
use ground_hog.Prelude.Steps.{
  Steps, Steps-pure, Steps-when, Steps-modify, run-rel, bind-ok_elim, step_rules,
}
use ground_hog.Bytes.{Bytes}
use ground_hog.Kv.{Command}
use ground_hog.Log.{RaftLog, last_index, term_at, has_entry, append, create}
use ground_hog.Log.Contiguous.{snoc-IsContiguous, append-create}
use ground_hog.Messages.{
  Message, AppendEntries, AppendEntriesReply, ClientRequest, RequestVote, request_vote,
  request_vote_reply, append_entries, append_entries_reply, client_request, client_reply,
}
use ground_hog.Persist
use ground_hog.Persist.{HardState}
use ground_hog.Persist.Replay.{append_entries-Holds}
use ground_hog.Storage.{Contract}
use ground_hog.Types.{NodeId, Term, Index}
use ground_hog.Node.State.{RaftNode, Services, Action}
use ground_hog.Node.Plumbing.{send, persist, sync, persist_entries}
use ground_hog.Node.Frame.{send-kept, arm_election_timer-kept}
use ground_hog.Node.Quiet.{
  promise, quiet, of_kept_disk, apply_committed-quiet, replicate_to-quiet,
  advance_commit_index-quiet,
}
use ground_hog.Node.Roles.{step_down, become_follower}
use ground_hog.Node.Votes.{become_follower-core}
use ground_hog.Node.Handlers.{
  on_log, take_entries, consistent, refuse_entries, accept_entries, confirm_entries, follow_leader,
  on_append_entries, on_append_entries_reply, take_request, offer_entry, on_client_request,
}
use ground_hog.Node.Lifecycle.{dispatch}
use ground_hog.Node.Durable.{
  held_order, Saved, Saved-LogHeld, IsHeld, IsDurable, Settles, Lasts, Settles-flush,
  Settles-flush_then, Settles-bind, Lasts-if, Lasts-quiet, Lasts-Settles, Lasts-bind,
  kept_disk-held, on_storage-ok, sync-Durable,
}
use ground_hog.Node.Durable.Votes.{
  become_follower-held, on_request_vote-settles, on_request_vote_reply-lasts,
}
use ground_hog.Node.Durable.Appends.{Taking, persist_entries-LogHeld, take_entries-Taking}

create-index :
    (term : Term) (c : Command) (log : RaftLog) → (create term c log).index ≡ last_index log + 1
unfolding create
create-index term c log = refl

module _ {S R : Type 0} where
  -- The consistency check changes nothing, and holds only of a position in the log.
  consistent-same :
      (i : Index) (term : Term) (n u : RaftNode S R) (b : Bool)
      → consistent i term n ≡ (ok b, u)
      → (u ≡ n) × (b ≡ true → i ≤ last_index n.log)
  unfolding consistent gets ◌>>=◌ lift pure has_entry
  consistent-same i term n u b e = elim (Bool-cases (leb i (last_index n.log))) [
    | inl there ↦
        elim (term_at n.log i)
            as (λ o. term_at n.log i ≡ o → (u ≡ n) × (b ≡ true → i ≤ last_index n.log)) [
              | ok t ↦ λ found. ground (arith, e, there, found)
              | raised x ↦ λ failed. ground (arith, e, there, failed)
            ]
          refl
    | inr beyond ↦ ground (arith, e, beyond)
  ]

module _ {S R : Type 0} (env : Services S R) (IsSound : S → Type 0)
    (written durable : S → List Bytes) (contract : Contract env.store IsSound written durable) where
  abbrev IsSettling : {A : Type 0} → Action S R A → Type 0
  IsSettling m = Settles env IsSound written durable contract m

  abbrev IsLasting : {A : Type 0} → Action S R A → Type 0
  IsLasting m = Lasts env IsSound written durable contract m

  send-quiet : (to : NodeId) (msg : Message) → Steps quiet (send {S = S} {R = R} to msg)
  send-quiet to msg = of_kept_disk _ (send-kept to msg)

  commit-quiet :
      (f : RaftNode S R → Index) → Steps quiet (modify (λ n. record n { commit_index = f n }))
  commit-quiet f = Steps-modify _ (λ n. record { same = refl })

  -- No entry is taken yet.
  begin-Taking :
      (index : Index) (n : RaftNode S R)
      → IsHeld env IsSound written durable contract n
      → index ≤ last_index n.log
      → Taking env IsSound written durable contract (promise n) (index + 1) []
  begin-Taking index n h near = record {
    base = n.log;
    held = h;
    whole = sym (append-nil n.log);
    contiguous = h.contiguous;
    pos = omega arith;
    near = omega arith;
    fresh = inl refl;
  }

  confirm_entries-settles :
      (frm : NodeId) (msg : AppendEntries) → IsSettling (confirm_entries env frm msg)
  unfolding confirm_entries
  confirm_entries-settles frm msg =
      search (Settles-flush_then, step_rules, commit-quiet, apply_committed-quiet, send-quiet) depth
        12

  accept_entries-durable :
      (frm : NodeId) (msg : AppendEntries) (n t : RaftNode S R)
      → IsHeld env IsSound written durable contract n
      → msg.prev_log_index ≤ last_index n.log
      → accept_entries env frm msg n ≡ (ok tt, t)
      → IsDurable env IsSound written durable contract t
  unfolding accept_entries
  accept_entries-durable frm msg n t h near e =
      bind-ok_elim (take_entries env (msg.prev_log_index + 1) msg.entries []) _ n e
        λ appended u taken e'. bind-ok_elim (persist_entries env appended) _ u e' λ _ v kept e''.
          (confirm_entries-settles frm msg).at v t tt
            (persist_entries-LogHeld env IsSound written durable contract appended _ u v
              (take_entries-Taking env IsSound written durable contract msg.entries
                (msg.prev_log_index + 1) [] n u appended (begin-Taking msg.prev_log_index n h near)
                taken)
              kept)
            e''

  forget-quiet :
      (f : RaftNode S R → RaftNode S R)
      → ((n : RaftNode S R) → promise n ≡ promise (f n))
      → Steps quiet (modify f)
  forget-quiet f same = Steps-modify f (λ n. record { same = same n })

  refuse_entries-quiet : (frm : NodeId) → Steps quiet (refuse_entries env frm)
  unfolding refuse_entries
  refuse_entries-quiet frm = search (step_rules, send-quiet) depth 7

  refuse-settles :
      (frm : NodeId) → IsSettling (persist env >>= λ _. (sync env >>= λ _. refuse_entries env frm))
  refuse-settles frm = Settles-flush_then _ _ _ _ _ _ (refuse_entries-quiet frm)

  -- What follows the consistency check, with the check.
  answer-settles :
      (frm : NodeId) (msg : AppendEntries)
      → IsSettling (
          consistent msg.prev_log_index msg.prev_log_term >>= λ matches.
          if matches
          then accept_entries env frm msg
          else persist env >>= λ _. (sync env >>= λ _. refuse_entries env frm))
  answer-settles frm msg = record {
    at = λ n t a h e.
        bind-ok_elim (consistent msg.prev_log_index msg.prev_log_term) _ n e λ matches u checked e'.
          let (same, near) =
            consistent-same msg.prev_log_index msg.prev_log_term n u matches checked in
          let hu : IsHeld env IsSound written durable contract u = rw same h in
          (elim matches
              as (λ b.
                (b ≡ true → msg.prev_log_index ≤ last_index u.log)
                → (if b
                      then accept_entries env frm msg
                      else persist env >>= λ _. (sync env >>= λ _. refuse_entries env frm))
                    u
                  ≡ (ok tt, t)
                → IsDurable env IsSound written durable contract t) [
                  | true ↦ λ near e. accept_entries-durable frm msg u t hu (near refl) e
                  | false ↦ λ near e. (refuse-settles frm).at u t tt hu e
                ])
            (rw same near) e';
  }

  follow_leader-settles :
      (frm : NodeId) (msg : AppendEntries) → IsSettling (follow_leader env frm msg)
  unfolding follow_leader
  follow_leader-settles frm msg =
      search
        (
          Settles-bind, step_rules, become_follower-held, kept_disk-held, arm_election_timer-kept,
          answer-settles,
        )
        depth 9

  -- A message of an older term finds the node as it was: the term only moves up to the message's.
  caught_up :
      (msg : AppendEntries) (n u : RaftNode S R)
      → when (ltb n.current_term msg.term) (become_follower msg.term (some msg.leader_id)) n
        ≡ (ok tt, u)
      → ltb msg.term u.current_term ≡ true
      → u ≡ n
  unfolding when pure
  caught_up msg n u e stale = elim (Bool-cases (ltb n.current_term msg.term)) [
    | inl newer ↦
        let now : (step_down msg.term (some msg.leader_id) n).current_term ≡ u.current_term =
          ap (λ c. c.current_term)
            (become_follower-core msg.term (some msg.leader_id) n u (rw newer at e)) in
        absurd (ground (arith, now, newer, stale))
    | inr old ↦ let same = rw old at e in sym (ap (λ p. p.1) same)
  ]

  after_catching_up :
      (frm : NodeId) (msg : AppendEntries) (n u t : RaftNode S R)
      → IsDurable env IsSound written durable contract n
      → when (ltb n.current_term msg.term) (become_follower msg.term (some msg.leader_id)) n
        ≡ (ok tt, u)
      → (if ltb msg.term u.current_term then refuse_entries env frm else follow_leader env frm msg)
          u
        ≡ (ok tt, t)
      → IsDurable env IsSound written durable contract t
  after_catching_up frm msg n u t h ran e = elim (Bool-cases (ltb msg.term u.current_term)) [
    | inl stale ↦
        let same : u ≡ n = caught_up msg n u ran stale in
        let e' = rw stale at e in
        (Lasts-quiet env IsSound written durable contract _ (refuse_entries-quiet frm)).at u t tt
          (rw same h) e'
    | inr current ↦
        let e' = rw current at e in
        (follow_leader-settles frm msg).at u t tt
          (run-rel (held_order env IsSound written durable contract) _
            (Steps-when _ _ (
              become_follower-held env IsSound written durable contract msg.term
                (some msg.leader_id)))
            ran (Saved-LogHeld env IsSound written durable contract h.saved))
          e'
  ]

  on_append_entries-lasts :
      (frm : NodeId) (msg : AppendEntries) → IsLasting (on_append_entries env frm msg)
  unfolding on_append_entries gets ◌>>=◌
  on_append_entries-lasts frm msg = record {
    at = λ n t a h e.
        bind-ok_elim
          (when (ltb n.current_term msg.term) (become_follower msg.term (some msg.leader_id)))
          (λ _. gets (λ n. n) >>= λ n.
            if ltb msg.term n.current_term
            then refuse_entries env frm
            else follow_leader env frm msg)
          n e λ _ u ran e'. after_catching_up frm msg n u t h ran e';
  }

  offer_entry-quiet :
      (i : Index) (frm : NodeId) (request_id : ℕ) → Steps quiet (offer_entry env i frm request_id)
  unfolding offer_entry
  offer_entry-quiet i frm request_id =
      search (step_rules, forget-quiet, replicate_to-quiet, advance_commit_index-quiet) depth 9

  -- The leader's new entry, in memory and on the disk.
  created-Saved :
      (msg : ClientRequest) (n u v : RaftNode S R)
      → Saved env IsSound written durable contract (promise n)
      → on_log (append (create n.current_term msg.command n.log ∷ [])) n ≡ (ok tt, u)
      → persist_entries env (create n.current_term msg.command n.log ∷ []) u ≡ (ok tt, v)
      → Saved env IsSound written durable contract (promise v)
  unfolding on_log persist_entries
  created-Saved msg n u v h appended ran =
      let entry = create n.current_term msg.command n.log in
      let grown : u ≡ record n { log = n.log ++ entry ∷ [] } =
        sym (ap (λ p. p.1) appended)
        ∙ ap (λ (p : Outcome (Unit {0}) × RaftLog). record n { log = p.1 })
            (append-create n.current_term msg.command n.log) in
      let (wrote, same) = on_storage-ok (Persist.append_entries env.store (entry ∷ [])) u v ran in
      let (sound, replays) =
        append_entries-Holds env.store IsSound written durable contract (entry ∷ [])
          (record {
            state = record { current_term = n.current_term; voted_for = n.voted_for };
            entries = n.log;
          })
          n.storage v.storage (h.sound, h.replays) (rw grown at wrote) in
      subst (Saved env IsSound written durable contract)
        (sym
          (ap promise (same ∙ ap (λ (u : RaftNode S R). record u { storage = v.storage }) grown)))
        (record {
          sound = sound;
          named = h.named;
          real = h.real;
          contiguous =
              snoc-IsContiguous n.log entry h.contiguous
                (create-index n.current_term msg.command n.log);
          replays = replays;
        })

  -- The leader's own entry goes to the disk before anybody is asked to hold it.
  take_request-lasts : (frm : NodeId) (msg : ClientRequest) → IsLasting (take_request env frm msg)
  unfolding take_request gets ◌>>=◌
  take_request-lasts frm msg = record {
    at = λ n t a h e.
        let entry = create n.current_term msg.command n.log in
        bind-ok_elim (on_log (append (entry ∷ [])))
          (λ _. persist_entries env (entry ∷ []) >>= λ _.
            (sync env >>= λ _. offer_entry env entry.index frm msg.request_id))
          n e
          λ _ u appended e1. bind-ok_elim (persist_entries env (entry ∷ [])) _ u e1 λ _ v wrote e2.
            bind-ok_elim (sync env) _ v e2 λ _ w flushed e3.
              (Lasts-quiet env IsSound written durable contract _
                  (offer_entry-quiet entry.index frm msg.request_id)).at
                w t a
                (sync-Durable env IsSound written durable contract v w
                  (created-Saved msg n u v h.saved appended wrote) flushed)
                e3;
  }

  on_client_request-lasts :
      (frm : NodeId) (msg : ClientRequest) → IsLasting (on_client_request env frm msg)
  unfolding on_client_request
  on_client_request-lasts frm msg =
      search (Lasts-bind, Lasts-if, Lasts-quiet, step_rules, take_request-lasts, send-quiet) depth 9

  on_append_entries_reply-lasts :
      (frm : NodeId) (msg : AppendEntriesReply) → IsLasting (on_append_entries_reply env frm msg)
  unfolding on_append_entries_reply
  on_append_entries_reply-lasts frm msg =
      search
        (
          Lasts-bind, Lasts-if, Lasts-quiet, Lasts-Settles, Settles-bind, Settles-flush, step_rules,
          become_follower-held, forget-quiet, advance_commit_index-quiet, replicate_to-quiet,
        )
        depth 14

  pub dispatch-lasts :
      (frm : NodeId) (msg : Message)
      → ((ask : RequestVote) → msg ≡ request_vote ask → ask.candidate_id ≢ 0)
      → IsLasting (dispatch env frm msg)
  unfolding dispatch
  dispatch-lasts frm (request_vote msg) named =
      Lasts-Settles _ _ _ _ _ _
        (on_request_vote-settles env IsSound written durable contract frm msg (named msg refl))
  dispatch-lasts frm (request_vote_reply msg) named =
      on_request_vote_reply-lasts env IsSound written durable contract frm msg
  dispatch-lasts frm (append_entries msg) named = on_append_entries-lasts frm msg
  dispatch-lasts frm (append_entries_reply msg) named = on_append_entries_reply-lasts frm msg
  dispatch-lasts frm (client_request msg) named = on_client_request-lasts frm msg
  dispatch-lasts frm (client_reply msg) named = Lasts-quiet _ _ _ _ _ _ (Steps-pure tt)
