-- ===== src/Node/Durable/Restart.antt =====
-- A durable node: a new one is, every handler that returns leaves one, and a restart of one reads
-- back the term, the vote and the log that it had.
use ground_hog.Prelude.{◌≡◌, ◌≢◌, refl, ◌∙◌, List, [], Bool, arith}
use ground_hog.Prelude.Outcome.{ok}
use ground_hog.Prelude.Exec.{lift, ◌>>=◌}
use ground_hog.Bytes.{Bytes}
use ground_hog.Log.Contiguous.{raft_log-contiguous}
use ground_hog.Messages.{Message, RequestVote, request_vote}
use ground_hog.Persist.{replay, replay_from, recover}
use ground_hog.Storage.{Contract}
use ground_hog.Types.{NodeId}
use ground_hog.Node.State.{RaftNode, Services, init}
use ground_hog.Node.Handlers.{on_election_timeout}
use ground_hog.Node.Lifecycle.{dispatch}
use ground_hog.Node.Durable.{IsDurable, Saved-LogHeld}
use ground_hog.Node.Durable.Votes.{on_election_timeout-settles}
use ground_hog.Node.Durable.Handled.{dispatch-lasts}

module _ {S R : Type 0} (env : Services S R) (IsSound : S → Type 0)
    (written durable : S → List Bytes) (contract : Contract env.store IsSound written durable) where
  -- A new node over an empty disk is durable.
  pub init-IsDurable :
      (node_id : NodeId) (peers : List NodeId) (s : S) (rng : R) (supervised : Bool)
      → node_id ≢ 0
      → IsSound s
      → written s ≡ []
      → durable s ≡ []
      → IsDurable env IsSound written durable contract (init node_id peers s rng supervised)
  unfolding init replay replay_from
  init-IsDurable node_id peers s rng supervised named sound empty flushed = record {
    saved = record {
      sound = sound;
      named = named;
      real = λ e. cc;
      contiguous = tt;
      replays = rw empty refl;
    };
    synced = rw (flushed, empty) refl;
  }

  -- If all that a node promises (its term, its vote and its log) is what a replay of its synced
  -- records gives, and the handler of any message returns, then the same holds of the node after
  -- it. The storage keeps its contract, and a vote is not asked for by a node 0, which the records
  -- use for no vote.
  pub dispatch-IsDurable :
      (frm : NodeId) (msg : Message) (n t : RaftNode S R)
      → ((ask : RequestVote) → msg ≡ request_vote ask → ask.candidate_id ≢ 0)
      → IsDurable env IsSound written durable contract n
      → dispatch env frm msg n ≡ (ok tt, t)
      → IsDurable env IsSound written durable contract t
  dispatch-IsDurable frm msg n t named h e =
      (dispatch-lasts env IsSound written durable contract frm msg named).at n t tt h e

  -- If a node is durable, its storage keeps its contract and an election timeout returns, then the
  -- node after it is durable too: the new term and the vote for itself are among the synced records.
  pub on_election_timeout-IsDurable :
      (n t : RaftNode S R)
      → IsDurable env IsSound written durable contract n
      → on_election_timeout env n ≡ (ok tt, t)
      → IsDurable env IsSound written durable contract t
  on_election_timeout-IsDurable n t h e =
      (on_election_timeout-settles env IsSound written durable contract).at n t tt
        (Saved-LogHeld env IsSound written durable contract h.saved) e

  -- If a node is durable, its storage keeps its contract, and a sound storage holds after a crash
  -- what was durable, then, where that storage can be read, recovery returns exactly the node's
  -- term, vote and log.
  pub recover-IsDurable :
      (n : RaftNode S R) (s s' : S) (rs : List Bytes)
      → IsDurable env IsSound written durable contract n
      → IsSound s
      → written s ≡ durable n.storage
      → env.store.read_all s ≡ (ok rs, s')
      → recover env.store s
        ≡ (ok (record { current_term = n.current_term; voted_for = n.voted_for }, n.log), s')
  unfolding recover lift ◌>>=◌
  recover-IsDurable n s s' rs h sound same read =
      let found : rs ≡ written n.storage =
        contract.read_all_log s s' rs sound read ∙ (same ∙ h.synced) in
      let replayed : replay rs
          ≡ ok (record {
            state = record { current_term = n.current_term; voted_for = n.voted_for };
            entries = n.log;
          }) =
        rw found h.saved.replays in
      ground (arith, read, replayed, raft_log-contiguous n.log h.saved.contiguous)
