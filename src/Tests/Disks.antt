-- ===== src/Tests/Disks.antt =====
-- Runs of the simulated disk.
use ground_hog.Prelude.{◌≡◌, refl, [], ◌∷◌, ◌++◌, length, false, arith}
use ground_hog.Prelude.Outcome.{ok}
use ground_hog.Prelude.Exec.{◌>>=◌, lift, gets, modify}
use ground_hog.Bytes.{be_bytes}
use ground_hog.Codec.Frames.{frame}
use ground_hog.Codec.Scans
use ground_hog.Storage.{Contract}
use ground_hog.Disk.{SimStorage, Draws, DiskFaults, new_disk, crash_after, restart, durable_records}
use ground_hog.Disk.Recovery.{IsSound, written, Recovered, crash_after-restart}
use ground_hog.Disk.Sound.{store, store-Contract}

-- Every draw is its lower bound, and no fault happens.
abbrev no_faults : Draws (Unit {0})
no_faults = record { between = λ low high r. (ok low, r); chance = λ percent r. (ok false, r) }

abbrev faults : DiskFaults
faults = record { write_error_percent = 0; lose_unsynced_percent = 50; sync_cost = (0, 0) }

store-Contract_example : Contract (store no_faults) IsSound written durable_records
store-Contract_example = store-Contract no_faults

-- One record is synced, and one is not.
abbrev two_records : SimStorage (Unit {0})
two_records = record (new_disk tt faults) {
  image = Scans.image ((1 ∷ 2 ∷ []) ∷ []) ++ Scans.image ((3 ∷ []) ∷ []);
  durable = length (Scans.image ((1 ∷ 2 ∷ []) ∷ []));
}

two_records-IsSound : IsSound two_records
two_records-IsSound = record {
  synced = (1 ∷ 2 ∷ []) ∷ [];
  unsynced = (3 ∷ []) ∷ [];
  whole = refl;
  boundary = refl;
  synced_Fits = (omega arith, tt);
  unsynced_Fits = (omega arith, tt);
}

abbrev torn : SimStorage (Unit {0})
torn = (crash_after 4 two_records).1

abbrev back : SimStorage (Unit {0})
back = (restart torn).1

crashed : crash_after 4 two_records ≡ (ok tt, torn)
unfolding crash_after ◌>>=◌ gets lift modify Scans.image frame be_bytes
crashed = refl

restarted : restart torn ≡ (ok tt, back)
unfolding restart modify
restarted = refl

crash_after-restart_example : Recovered two_records back 4 two_records-IsSound
crash_after-restart_example =
    crash_after-restart 4 two_records torn back two_records-IsSound crashed restarted
