-- ===== src/Invariants/View.antt =====
-- groundhog/invariants/base.py and history.py: what a checker looks at, and what it may say. The
-- methods that only render a message (`describe`, `reproduce`, `as_record`) are not modelled: a
-- problem is the data of the message, with one constructor for each format string.
use ground_hog.Prelude.{
  ℕ, List, [], ◌∷◌, ◌++◌, Option, none, some, true, ◌&&◌, map, Memᴰ, ◌≡◌, refl, sym, ◌∙◌, ap,
  if◌then◌else◌, Bool-cases, inl, inr,
}
use mathlib.Core.List.Memᴰ
use ground_hog.Prelude.Dict.{Dict, Text, text_key, insert}
use ground_hog.Prelude.Sort.{sorted_items, sorted_items-Mem, sorted_items-given}
use ground_hog.Kv.{Command, put_op}
use ground_hog.Log.{LogEntry}
use ground_hog.Node.State.{RaftNode}
use ground_hog.Node.Roles.{is_leader}
use ground_hog.Types.{NodeId, Term, Index, Tick}

pub record Ack : Type 0 where
  pub tick : Tick
  pub request_id : ℕ
  pub command : Command
  pub by : NodeId

-- `ClientHistory.acks`
abbrev pub ClientHistory : Type 0
ClientHistory = List Ack

abbrev pub record_ack : Tick → ℕ → Command → NodeId → ClientHistory → ClientHistory
record_ack tick request_id command by acks =
    acks ++ record { tick = tick; request_id = request_id; command = command; by = by } ∷ []

abbrev pub commands : ClientHistory → List Command
commands = map (λ a. a.command)

-- `command.value if command.op == PUT else None`
abbrev pub value_of : Command → Option Text
value_of c = elim c.op [ put_op ↦ some c.value | _ ↦ none ]

-- The loop of `expected_state`.
expect : Dict Text (Option Text) → ClientHistory → Dict Text (Option Text)
expect state [] = state
expect state (a ∷ acks) = expect (insert a.command.key (value_of a.command) state) acks

unfoldable pub expected_state : ClientHistory → Dict Text (Option Text)
unfolding expect
expected_state = expect []

pub record AppliedEntry : Type 0 where
  pub index : Index
  pub term : Term
  pub command : Command
  pub by : NodeId

-- The messages that the checkers return.
pub data Problem : Type 0 where
  two_leaders : Term → NodeId → NodeId → Problem
  different_commands : NodeId → NodeId → Term → Index → Problem
  already_differ : NodeId → NodeId → Term → Index → Index → Problem
  leader_changed : NodeId → Term → ℕ → Problem
  leader_lacks : NodeId → Term → LogEntry → Option LogEntry → Problem
  applied_past_log : NodeId → Index → Index → Problem
  applied_differently : Index → AppliedEntry → NodeId → LogEntry → Problem
  applied_uncommitted : NodeId → Index → Index → Problem
  commit_went_back : NodeId → Index → Index → Problem

module _ {S R : Type 0} where
  -- `[node for node in ... if node.running and node.role is Role.LEADER]`
  unfoldable pub filter_leaders : List (RaftNode S R) → List (RaftNode S R)
  filter_leaders [] = []
  filter_leaders (n ∷ ns) =
      let rest = filter_leaders ns in if n.running && is_leader n.role then n ∷ rest else rest

-- The nodes are a dict from their ids.
pub record ClusterView (S R : Type 0) : Type 0 where
  pub tick : Tick
  pub nodes : Dict NodeId (RaftNode S R)
  pub history : ClientHistory

map-Mem : {K V : Type 0} (p : K × V) (l : List (K × V)) → Memᴰ p l → Memᴰ p.1 (map (λ q. q.1) l)
map-Mem p [] m = absurd (Memᴰ.not-nil m)
map-Mem p (q ∷ l) (Memᴰ.head same) = Memᴰ.head (ap (λ q. q.1) same)
map-Mem p (q ∷ l) (Memᴰ.tail m) = Memᴰ.tail (map-Mem p l m)

module _ {S R : Type 0} where
  -- `[self.nodes[node_id] for node_id in sorted(self.nodes)]`: the values in the order of their keys
  unfoldable pub sorted_nodes : ClusterView S R → List (RaftNode S R)
  sorted_nodes view = map (λ p. p.1) (sorted_items view.nodes)

  unfoldable pub leaders : ClusterView S R → List (RaftNode S R)
  unfolding filter_leaders
  leaders view = filter_leaders (sorted_nodes view)

  filter_leaders-Mem :
      (n : RaftNode S R) (ns : List (RaftNode S R))
      → (n.running && is_leader n.role) ≡ true
      → Memᴰ n ns
      → Memᴰ n (filter_leaders ns)
  unfolding filter_leaders
  filter_leaders-Mem n [] h m = absurd (Memᴰ.not-nil m)
  filter_leaders-Mem n (x ∷ ns) h (Memᴰ.head same) = rw (← same, h) (Memᴰ.head refl)
  filter_leaders-Mem n (x ∷ ns) h (Memᴰ.tail m) =
      elim (Bool-cases (x.running && is_leader x.role)) [
        | inl leads ↦ rw leads (Memᴰ.tail (filter_leaders-Mem n ns h m))
        | inr follows ↦ rw follows (filter_leaders-Mem n ns h m)
      ]

  -- Every node of the view is visited.
  pub sorted_nodes-Mem :
      (view : ClusterView S R) (i : NodeId) (n : RaftNode S R)
      → Memᴰ (i, n) view.nodes
      → Memᴰ n (sorted_nodes view)
  unfolding sorted_nodes
  sorted_nodes-Mem view i n m =
      map-Mem (i, n) (sorted_items view.nodes) (sorted_items-Mem view.nodes (i, n) m)

  -- And every node that runs and leads is visited as a leader.
  pub leaders-Mem :
      (view : ClusterView S R) (i : NodeId) (n : RaftNode S R)
      → Memᴰ (i, n) view.nodes
      → (n.running && is_leader n.role) ≡ true
      → Memᴰ n (leaders view)
  unfolding leaders
  leaders-Mem view i n m h =
      filter_leaders-Mem n (sorted_nodes view) h (sorted_nodes-Mem view i n m)

-- Each node stands in the view once, under its own id.
pub record IsKeyed {S R : Type 0} (view : ClusterView S R) : Type 0 where
  pub own : (i : NodeId) (n : RaftNode S R) → Memᴰ (i, n) view.nodes → n.node_id ≡ i
  pub once :
      (i : NodeId) (a b : RaftNode S R) → Memᴰ (i, a) view.nodes → Memᴰ (i, b) view.nodes → a ≡ b

map-given :
    {K V : Type 0} (v : V) (l : List (K × V)) → Memᴰ v (map (λ q. q.1) l) → (k : K) × Memᴰ (k, v) l
map-given v [] m = absurd (Memᴰ.not-nil m)
map-given v (q ∷ l) (Memᴰ.head same) = (q.0, Memᴰ.head (ap (λ w. (q.0, w)) same))
map-given v (q ∷ l) (Memᴰ.tail m) = let below = map-given v l m in (below.0, Memᴰ.tail below.1)

module _ {S R : Type 0} (view : ClusterView S R) (keyed : IsKeyed view) where
  -- Two nodes that are visited under one id are the same.
  pub sorted_nodes-one :
      (a b : RaftNode S R)
      → Memᴰ a (sorted_nodes view)
      → Memᴰ b (sorted_nodes view)
      → a.node_id ≡ b.node_id
      → a ≡ b
  unfolding sorted_nodes
  sorted_nodes-one a b ma mb same =
      let left = map-given a (sorted_items view.nodes) ma in
      let right = map-given b (sorted_items view.nodes) mb in
      let in_left = sorted_items-given view.nodes (left.0, a) left.1 in
      let in_right = sorted_items-given view.nodes (right.0, b) right.1 in
      let place : right.0 ≡ left.0 =
        sym (keyed.own right.0 b in_right) ∙ sym same ∙ keyed.own left.0 a in_left in
      keyed.once left.0 a b in_left (rw place at in_right)

  filter_leaders-given :
      (n : RaftNode S R) (ns : List (RaftNode S R)) → Memᴰ n (filter_leaders ns) → Memᴰ n ns
  unfolding filter_leaders
  filter_leaders-given n [] m = m
  filter_leaders-given n (x ∷ ns) m = elim (Bool-cases (x.running && is_leader x.role)) [
    | inl leads ↦
        let m' : Memᴰ n (x ∷ filter_leaders ns) = rw leads at m in
        elim (Memᴰ.cases_cons m') [
          | inl here ↦ Memᴰ.head here
          | inr below ↦ Memᴰ.tail (filter_leaders-given n ns below)
        ]
    | inr follows ↦ Memᴰ.tail (filter_leaders-given n ns (rw follows at m))
  ]

  pub leaders-one :
      (a b : RaftNode S R)
      → Memᴰ a (leaders view)
      → Memᴰ b (leaders view)
      → a.node_id ≡ b.node_id
      → a ≡ b
  unfolding leaders
  leaders-one a b ma mb =
      sorted_nodes-one a b (filter_leaders-given a (sorted_nodes view) ma)
        (filter_leaders-given b (sorted_nodes view) mb)
