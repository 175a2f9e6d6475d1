-- ===== src/Messages.antt =====
-- groundhog/messages.py: the wire format of the Raft world. The `describe` methods, which only
-- render a message for the trace, are not modelled.
use ground_hog.Prelude.{ℕ, Bool, List, Option}
use ground_hog.Prelude.Dict.{Text}
use ground_hog.Kv.{Command}
use ground_hog.Log.{LogEntry}
use ground_hog.Types.{NodeId, Term, Index}

pub record RequestVote : Type 0 where
  pub term : Term
  pub candidate_id : NodeId
  pub last_log_index : Index
  pub last_log_term : Term

pub record RequestVoteReply : Type 0 where
  pub term : Term
  pub vote_granted : Bool

pub record AppendEntries : Type 0 where
  pub term : Term
  pub leader_id : NodeId
  pub prev_log_index : Index
  pub prev_log_term : Term
  pub entries : List LogEntry
  pub leader_commit : Index

pub record AppendEntriesReply : Type 0 where
  pub term : Term
  pub success : Bool
  pub match_index : Index

pub record ClientRequest : Type 0 where
  pub request_id : ℕ
  pub command : Command

pub record ClientReply : Type 0 where
  pub request_id : ℕ
  pub accepted : Bool
  pub leader_hint : Option NodeId
  pub value : Option Text

-- Everything that travels in the Raft world.
pub data Message : Type 0 where
  request_vote : RequestVote → Message
  request_vote_reply : RequestVoteReply → Message
  append_entries : AppendEntries → Message
  append_entries_reply : AppendEntriesReply → Message
  client_request : ClientRequest → Message
  client_reply : ClientReply → Message
