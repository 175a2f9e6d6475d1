-- ===== src/Faults.antt =====
-- groundhog/sim/faults.py: the timeline of what goes wrong, drawn before the run, and the injector that
-- puts it on the clock. Partitions and outages are both episodes: a tick, a duration, and what it is.
-- The loops of `generate_schedule` are on fuel: a run of one returns none when the fuel is used up.
-- What the injector calls of the network and the nodes is a parameter.
pub mod Episodes
pub mod Sides
use ground_hog.Prelude.{
  ℕ, zero, suc, ◌+◌, ◌-◌, ◌*◌, List, [], ◌∷◌, ◌++◌, Option, none, some, Bool, true, false, ◌&&◌,
  ◌||◌, ltb, leb, ◌==◌, if◌then◌else◌, length, take, drop, map,
}
use ground_hog.Prelude.Dict.{Text, text_eq}
use ground_hog.Prelude.Outcome.{Outcome, ok, raised, value_error, index_error}
use ground_hog.Prelude.Exec.{Exec, pure, raise, gets, modify, for_each, ◌>>=◌, ◌>>◌}
use ground_hog.Prelude.Sort.{sorted_items}
use ground_hog.Clock
use ground_hog.Clock.{SimClock}
use ground_hog.Net.{NetworkFaults, default_faults, Partition, NodeState, running, crashed, hung}
use ground_hog.Types.{NodeId, Tick, millisecond, second}

-- CRASH and HANG
pub data Outage : Type 0 where
  crash hang : Outage

pub record Episode (X : Type 0) : Type 0 where
  pub at : Tick
  pub duration : Tick
  pub what : X

-- `PartitionEpisode` and `OutageEpisode`
abbrev pub PartitionEpisode : Type 0
PartitionEpisode = Episode Partition

abbrev pub OutageEpisode : Type 0
OutageEpisode = Episode (NodeId × Outage)

pub record FaultSchedule : Type 0 where
  pub partitions : List PartitionEpisode
  pub outages : List OutageEpisode

-- "partitions" and "outages"
abbrev partitions_kind : Text
partitions_kind = 112 ∷ 97 ∷ 114 ∷ 116 ∷ 105 ∷ 116 ∷ 105 ∷ 111 ∷ 110 ∷ 115 ∷ []

abbrev pub outages_kind : Text
outages_kind = 111 ∷ 117 ∷ 116 ∷ 97 ∷ 103 ∷ 101 ∷ 115 ∷ []

-- `xs[:index] + xs[index + 1:]`
abbrev pub cut_out : {X : Type 0} → ℕ → List X → List X
cut_out index xs = take index xs ++ drop (index + 1) xs

-- `FaultSchedule.without`
unfoldable pub without : ℕ → Text → FaultSchedule → Outcome FaultSchedule
without index of s =
    if text_eq of partitions_kind
    then ok (record s { partitions = cut_out index s.partitions })
    else if text_eq of outages_kind
    then ok (record s { outages = cut_out index s.outages })
    else raised value_error

-- `FaultProfile`, without the name and the disk's faults
pub record FaultProfile : Type 0 where
  pub network : NetworkFaults
  pub partitions : Bool
  pub partition_gap : Tick × Tick
  pub partition_duration : Tick × Tick
  pub one_way_percent : ℕ
  pub outages : Bool
  pub outage_gap : Tick × Tick
  pub outage_duration : Tick × Tick
  pub hang_percent : ℕ

abbrev pub quiet : FaultProfile
quiet = record {
  network = default_faults;
  partitions = false;
  partition_gap = (200 * millisecond, 2 * second);
  partition_duration = (100 * millisecond, second);
  one_way_percent = 30;
  outages = false;
  outage_gap = (300 * millisecond, 3 * second);
  outage_duration = (50 * millisecond, 800 * millisecond);
  hang_percent = 30;
}

abbrev pub perfect : FaultProfile
perfect = record quiet {
  network = record {
    latency = (5 * millisecond, 5 * millisecond);
    drop_percent = 0;
    duplicate_percent = 0;
  };
}

abbrev pub aggressive : FaultProfile
aggressive = record quiet {
  network = record {
    latency = (millisecond, 60 * millisecond);
    drop_percent = 8;
    duplicate_percent = 4;
  };
  partitions = true;
  outages = true;
}

-- What the schedule draws.
pub record FaultDraws (R : Type 0) : Type 0 where
  pub below : ℕ → Exec R ℕ
  pub between : ℕ → ℕ → Exec R ℕ
  pub chance : ℕ → Exec R Bool

-- `pool.pop(index)`: the item, and the list without it
abbrev pub pop_at : {X : Type 0} → ℕ → List X → Option (X × List X)
pop_at i [] = none
pop_at zero (x ∷ xs) = some (x, xs)
pop_at (suc i) (x ∷ xs) = elim (pop_at i xs) [ none ↦ none | some (y, ys) ↦ some (y, x ∷ ys) ]

-- `sorted` on ids
abbrev pub id_items : List NodeId → List (NodeId × Unit {0})
id_items = map (λ i. (i, tt))

unfoldable pub sorted_ids : List NodeId → List NodeId
sorted_ids ids = map (λ p. p.0) (sorted_items (id_items ids))

-- `a.at, a.node` comes before or with `b.at, b.node`
abbrev pub no_later : OutageEpisode → OutageEpisode → Bool
no_later a b = ltb a.at b.at || (a.at == b.at && leb a.what.0 b.what.0)

-- `outages.sort(...)`
insert_outage : OutageEpisode → List OutageEpisode → List OutageEpisode
insert_outage e [] = e ∷ []
insert_outage e (f ∷ fs) =
    let rest = insert_outage e fs in if no_later e f then e ∷ f ∷ fs else f ∷ rest

unfoldable pub sort_outages : List OutageEpisode → List OutageEpisode
unfolding insert_outage
sort_outages [] = []
sort_outages (e ∷ es) = insert_outage e (sort_outages es)

abbrev pub and_then : {X : Type 0} → X → Option (List X) → Option (List X)
and_then e none = none
and_then e (some es) = some (e ∷ es)

abbrev pub both_lists : {X : Type 0} → Option (List X) → Option (List X) → Option (List X)
both_lists none o = none
both_lists (some es) none = none
both_lists (some es) (some fs) = some (es ++ fs)

abbrev pub schedule_of :
    Option (List PartitionEpisode) → Option (List OutageEpisode) → Option FaultSchedule
schedule_of none o = none
schedule_of (some ps) none = none
schedule_of (some ps) (some os) = some (record { partitions = ps; outages = sort_outages os })

module _ {R : Type 0} (draws : FaultDraws R) where
  -- The loop of `_split`.
  unfoldable pub choose : ℕ → List NodeId → List NodeId → Exec R (List NodeId × List NodeId)
  choose zero pool chosen = pure (chosen, pool)
  choose (suc size) pool chosen = draws.below (length pool) >>= λ i. elim (pop_at i pool) [
    | none ↦ raise index_error
    | some (x, left) ↦ choose size left (chosen ++ x ∷ [])
  ]

  -- `_split`
  unfoldable pub split : List NodeId → Exec R (List NodeId × List NodeId)
  unfolding choose
  split node_ids = do
    size ← draws.between 1 (length node_ids - 1)
    sides ← choose size node_ids []
    pure (sorted_ids sides.0, sorted_ids sides.1)

  -- `while at < horizon`: the draws of one episode, and the tick of the next.
  unfoldable pub walk :
      {X : Type 0}
      → ℕ
      → Tick × Tick
      → Tick × Tick
      → Exec R X
      → Tick
      → Tick
      → Exec R (Option (List (Episode X)))
  walk zero gap durations body horizon at = pure none
  walk (suc fuel) gap durations body horizon at =
      if ltb at horizon
      then (draws.between durations.0 durations.1 >>= λ duration. body >>= λ what.
          draws.between gap.0 gap.1 >>= λ pause.
          walk fuel gap durations body horizon (at + (duration + pause)) >>= λ rest.
          pure (and_then (record { at = at; duration = duration; what = what }) rest))
      else pure (some [])

  -- The two bodies.
  draw_partition : FaultProfile → List NodeId → Exec R Partition
  unfolding split
  draw_partition profile node_ids = do
    sides ← split node_ids
    one_way ← draws.chance profile.one_way_percent
    pure (record { side_a = sides.0; side_b = sides.1; one_way = one_way })

  draw_outage : FaultProfile → NodeId → Exec R (NodeId × Outage)
  draw_outage profile node = do
    hangs ← draws.chance profile.hang_percent
    pure (node, if hangs then hang else crash)

  unfoldable pub draw_partitions :
      ℕ → FaultProfile → List NodeId → Tick → Exec R (Option (List PartitionEpisode))
  unfolding walk draw_partition
  draw_partitions fuel profile node_ids horizon =
      if profile.partitions && leb 2 (length node_ids)
      then (draws.between profile.partition_gap.0 profile.partition_gap.1 >>= λ at.
          walk fuel profile.partition_gap profile.partition_duration
            (draw_partition profile node_ids) horizon at)
      else pure (some [])

  -- The outages of one node, and of all.
  unfoldable pub draw_outages_of :
      ℕ → FaultProfile → Tick → NodeId → Exec R (Option (List OutageEpisode))
  unfolding walk draw_outage
  draw_outages_of fuel profile horizon node = do
    at ← draws.between profile.outage_gap.0 profile.outage_gap.1
    walk fuel profile.outage_gap profile.outage_duration (draw_outage profile node) horizon at

  unfoldable pub draw_outages :
      ℕ → FaultProfile → Tick → List NodeId → Exec R (Option (List OutageEpisode))
  unfolding draw_outages_of
  draw_outages fuel profile horizon [] = pure (some [])
  draw_outages fuel profile horizon (node ∷ nodes) = do
    es ← draw_outages_of fuel profile horizon node
    rest ← draw_outages fuel profile horizon nodes
    pure (both_lists es rest)

  -- `generate_schedule`
  unfoldable pub generate_schedule :
      ℕ → FaultProfile → List NodeId → Tick → Exec R (Option FaultSchedule)
  unfolding draw_partitions draw_outages
  generate_schedule fuel profile node_ids horizon = do
    partitions ← draw_partitions fuel profile node_ids horizon
    outages ←
        if profile.outages
        then draw_outages fuel profile horizon (sorted_ids node_ids)
        else pure (some [])
    pure (schedule_of partitions outages)

-- The callbacks that the injector hands to the clock.
pub data FaultAction : Type 0 where
  start_partition : PartitionEpisode → FaultAction
  heal_partition : FaultAction
  begin_outage : OutageEpisode → FaultAction
  end_outage : OutageEpisode → FaultAction

-- What the injector calls, over the state of the network and the nodes.
pub record Targets (N : Type 0) : Type 0 where
  pub split : Partition → Exec N (Unit {0})
  pub heal : Exec N (Unit {0})
  pub set_state : NodeId → NodeState → Exec N (Unit {0})
  pub crash : NodeId → Exec N (Unit {0})
  pub restart : NodeId → Exec N (Unit {0})

-- The name of an event only labels the trace: one name stands for the five that the injector gives.
abbrev pub fault_name : Text
fault_name = 102 ∷ 97 ∷ 117 ∷ 108 ∷ 116 ∷ []

module _ {A : Type 0} (inject : FaultAction → A) where
  -- `_at`: a tick that has passed is now
  unfoldable pub put_at : Tick → FaultAction → SimClock A → SimClock A
  put_at tick action c = (Clock.after (tick - c.now) (inject action) fault_name none c).1

  unfoldable pub arm_partitions : List PartitionEpisode → SimClock A → SimClock A
  unfolding put_at
  arm_partitions [] c = c
  arm_partitions (e ∷ es) c =
      arm_partitions es
        (put_at (e.at + e.duration) heal_partition (put_at e.at (start_partition e) c))

  unfoldable pub arm_outages : List OutageEpisode → SimClock A → SimClock A
  unfolding put_at
  arm_outages [] c = c
  arm_outages (e ∷ es) c =
      arm_outages es (put_at (e.at + e.duration) (end_outage e) (put_at e.at (begin_outage e) c))

  -- `FaultInjector.arm`
  unfoldable pub arm : FaultSchedule → SimClock A → SimClock A
  unfolding arm_partitions arm_outages
  arm s c = arm_outages s.outages (arm_partitions s.partitions c)

module _ {N : Type 0} (targets : Targets N) where
  -- `_start_partition`, `_heal`, `_begin` and `_end`; `fired` only counts for the tests.
  unfoldable pub fire : FaultAction → Exec N (Unit {0})
  fire (start_partition e) = targets.split e.what
  fire heal_partition = targets.heal
  fire (begin_outage e) = elim e.what.1 [
    | crash ↦ do targets.set_state e.what.0 crashed; targets.crash e.what.0
    | hang ↦ targets.set_state e.what.0 hung
  ]
  fire (end_outage e) = elim e.what.1 [
    | crash ↦ do targets.restart e.what.0; targets.set_state e.what.0 running
    | hang ↦ targets.set_state e.what.0 running
  ]
