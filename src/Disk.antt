-- ===== src/Disk.antt =====
-- groundhog/sim/disk.py: the simulated disk. `_cache` holds nothing but the scan of `_bytes`, which
-- is computed anew here. The draws of the disk's `Rng` are parameters.
pub mod Recovery
pub mod Sound
use ground_hog.Prelude.{
  ℕ, ◌+◌, ◌-◌, min, List, [], ◌∷◌, ◌++◌, Option, none, some, Bool, true, false, not, ◌&&◌, leb, ltb,
  if◌then◌else◌, length, take, drop, get_elem?,
}
use ground_hog.Prelude.Outcome.{Outcome, ok, raised, disk_error, index_error, value_error, ensure}
use ground_hog.Prelude.Exec.{Exec, ◌>>=◌, ◌>>◌, pure, raise, lift, gets, modify}
use ground_hog.Bytes.{Bytes}
use ground_hog.Codec.{Scan, encode_records, decode_records}
use ground_hog.Types.{Tick}

pub record DiskFaults : Type 0 where
  pub write_error_percent : ℕ
  pub lose_unsynced_percent : ℕ
  pub sync_cost : Tick × Tick

pub record SimStorage (R : Type 0) : Type 0 where
  pub rng : R
  pub faults : DiskFaults
  pub image : Bytes
  pub durable : ℕ
  pub online : Bool
  pub failed : Bool
  pub owed_ticks : Tick

-- What the disk draws.
pub record Draws (R : Type 0) : Type 0 where
  pub between : ℕ → ℕ → Exec R ℕ
  pub chance : ℕ → Exec R Bool

abbrev pub DiskAction : Type 0 → Type 0 → Type 0
DiskAction R A = Exec (SimStorage R) A

-- Where `truncate_from` cuts.
abbrev cut_offset : ℕ → Scan → Outcome ℕ
cut_offset index scan =
    if ltb index (length scan.records)
    then elim (get_elem? scan.offsets index) [ none ↦ raised index_error | some offset ↦ ok offset ]
    else ok scan.valid_bytes

module _ {R : Type 0} where
  -- `SimStorage(rng, faults=faults)`
  abbrev pub new_disk : R → DiskFaults → SimStorage R
  new_disk rng faults = record {
    rng = rng;
    faults = faults;
    image = [];
    durable = 0;
    online = true;
    failed = false;
    owed_ticks = 0;
  }

  -- `_require_online`
  unfoldable pub require_online : DiskAction R (Unit {0})
  require_online = do
    d ← gets (λ d. d)
    lift (ensure d.online disk_error)
    lift (ensure (not d.failed) disk_error)

  unfoldable pub on_draws : {A : Type 0} → Exec R A → DiskAction R A
  on_draws m d = let (r, g) = m d.rng in (r, record d { rng = g })

  unfoldable pub read_all : DiskAction R (List Bytes)
  unfolding require_online
  read_all = do require_online; gets (λ d. (decode_records d.image).records)

  unfoldable pub truncate_from : ℕ → DiskAction R (Unit {0})
  unfolding require_online
  truncate_from index = do
    require_online
    scan ← gets (λ d. decode_records d.image)
    lift (ensure (leb index (length scan.records)) index_error)
    offset ← lift (cut_offset index scan)
    modify (λ d. record d { image = take offset d.image; durable = min d.durable offset })

  unfoldable pub crash_after : ℕ → DiskAction R (Unit {0})
  crash_after kept = do
    d ← gets (λ d. d)
    lift (ensure (leb kept (length d.image - d.durable)) value_error)
    modify (λ d.
        let image = take (d.durable + kept) d.image in
        record d { image = image; durable = length image; online = false; failed = false })

  unfoldable pub restart : DiskAction R (Unit {0})
  restart = modify (λ d.
      let image = take (decode_records d.image).valid_bytes d.image in
      record d { image = image; durable = length image; online = true; failed = false })

  abbrev pub is_online : SimStorage R → Bool
  is_online d = d.online && not d.failed

  abbrev pub durable_records : SimStorage R → List Bytes
  durable_records d = (decode_records (take d.durable d.image)).records

  unfoldable pub take_owed_ticks : DiskAction R Tick
  take_owed_ticks = do
    owed ← gets (λ d. d.owed_ticks)
    modify (λ d. record d { owed_ticks = 0 })
    pure owed

module _ {R : Type 0} (draws : Draws R) where
  -- The write of `append`, once the draw has said whether it fails.
  unfoldable pub land : Bytes → Bool → DiskAction R (Unit {0})
  unfolding on_draws
  land blob fails =
      if fails
      then (do
        landed ← on_draws (draws.between 0 (length blob))
        modify (λ d. record d { image = d.image ++ take landed blob; failed = true })
        raise disk_error)
      else modify (λ d. record d { image = d.image ++ blob })

  unfoldable pub append : List Bytes → DiskAction R (Unit {0})
  unfolding require_online on_draws
  append [] = require_online
  append (r ∷ rs) = do
    require_online
    blob ← lift (encode_records (r ∷ rs))
    d ← gets (λ d. d)
    fails ← on_draws (draws.chance d.faults.write_error_percent)
    land blob fails

  unfoldable pub sync : DiskAction R (Unit {0})
  unfolding require_online on_draws
  sync = do
    require_online
    modify (λ d. record d { durable = length d.image })
    d ← gets (λ d. d)
    cost ← on_draws (draws.between d.faults.sync_cost.0 d.faults.sync_cost.1)
    modify (λ d. record d { owed_ticks = d.owed_ticks + cost })

  unfoldable pub crash : DiskAction R ℕ
  unfolding on_draws
  crash = do
    d ← gets (λ d. d)
    lose ← on_draws (draws.chance d.faults.lose_unsynced_percent)
    kept ← if lose then pure 0 else on_draws (draws.between 0 (length d.image - d.durable))
    crash_after kept
    pure kept
