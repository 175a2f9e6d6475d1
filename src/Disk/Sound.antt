-- ===== src/Disk/Sound.antt =====
-- The simulated disk keeps the storage contract: its image is whole records, cut by `durable` between
-- two of them, until a write fails or a crash tears it.
use ground_hog.Prelude.{
  ◌≡◌, ◌∙◌, ap, sym, List, [], ◌∷◌, ◌++◌, Bool, true, false, take, All-append, length, append-nil,
  append_assoc,
}
use ground_hog.Prelude.Outcome.{Outcome, ok, Error, disk_error}
use ground_hog.Prelude.Exec.{Exec, raise, modify}
use ground_hog.Prelude.Steps.{bind-ok_elim, gets-ok, lift-ok_elim}
use ground_hog.Bytes.{Bytes}
use ground_hog.Codec.{encode_records, decode_records}
use ground_hog.Codec.Scans
use ground_hog.Codec.Scans.{Fits, image-append, encode_records-image, decode_records-stop, scan_of}
use ground_hog.Storage.{Storage, Contract}
use ground_hog.Disk.{
  SimStorage, Draws, require_online, on_draws, read_all, append, land, sync, durable_records,
}
use ground_hog.Disk.Recovery.{
  IsSound, written, require_online-same, read_all-written, written-records, durable-records,
  image_nil,
}

raise-ok : {S : Type 0} (x : Error) (s t : S) → ¬ (raise x s ≡ (ok tt, t))
unfolding raise
raise-ok x s t h = cc

module _ {R : Type 0} (draws : Draws R) where
  abbrev pub store : Storage (SimStorage R)
  store = record { append = append draws; sync = sync draws; read_all = read_all }

  on_draws-disk :
      {A : Type 0} (m : Exec R A) (d e : SimStorage R) (a : A)
      → on_draws m d ≡ (ok a, e)
      → e ≡ record d { rng = e.rng }
  unfolding on_draws
  on_draws-disk {A = A} m d e a ran =
      sym (ap (λ p. p.1) ran)
      ∙ ap (λ (p : Outcome A × SimStorage R). record d { rng = p.1.rng }) ran

  land-grows :
      (blob : Bytes) (fails : Bool) (d e : SimStorage R)
      → land draws blob fails d ≡ (ok tt, e)
      → (e.image ≡ d.image ++ blob) × (e.durable ≡ d.durable)
  unfolding land modify
  land-grows blob false d e ran = (sym (ap (λ p. p.1.image) ran), sym (ap (λ p. p.1.durable) ran))
  land-grows blob true d e ran =
      bind-ok_elim (on_draws (draws.between 0 (length blob))) _ d ran λ landed d1 _ ran1.
        bind-ok_elim (modify (λ d. record d { image = d.image ++ take landed blob; failed = true }))
          _ d1 ran1 λ _ d2 _ ran2. absurd (raise-ok disk_error d2 e ran2)

  -- An append that returned wrote the whole frames of its records.
  pub append-grows :
      (rs : List Bytes) (d e : SimStorage R)
      → append draws rs d ≡ (ok tt, e)
      → (e.image ≡ d.image ++ Scans.image rs) × (e.durable ≡ d.durable) × Fits rs
  unfolding append Scans.image
  append-grows [] d e ran =
      let same = require_online-same d e ran in
      (ap (λ d. d.image) same ∙ sym (append-nil d.image), ap (λ d. d.durable) same, tt)
  append-grows (r ∷ rs) d e ran = bind-ok_elim require_online _ d ran λ _ d1 online ran1.
      lift-ok_elim (encode_records (r ∷ rs)) _ d1 ran1 λ blob hb ran2.
        bind-ok_elim (on_draws (draws.chance d1.faults.write_error_percent)) _ d1
          (gets-ok (λ d. d) _ d1 ran2)
          λ fails d2 drawn ran3.
            let same = require_online-same d d1 online in
            let drew =
              on_draws-disk (draws.chance d1.faults.write_error_percent) d1 d2 fails drawn in
            let (wrote, kept) = land-grows blob fails d2 e ran3 in
            let (is_image, fits) = encode_records-image (r ∷ rs) blob hb in
            (
              wrote
                  ∙ (ap (λ b. b ++ blob) (ap (λ d. d.image) drew ∙ ap (λ d. d.image) same)
                      ∙ ap (λ b. d.image ++ b) is_image),
              kept ∙ (ap (λ d. d.durable) drew ∙ ap (λ d. d.durable) same),
              fits,
            )

  sync-settles :
      (d e : SimStorage R)
      → sync draws d ≡ (ok tt, e)
      → (e.image ≡ d.image) × (e.durable ≡ length d.image)
  unfolding sync modify
  sync-settles d e ran = bind-ok_elim require_online _ d ran λ _ d1 online ran1.
      bind-ok_elim (modify (λ d. record d { durable = length d.image })) _ d1 ran1 λ _ d2 set ran2.
        bind-ok_elim (on_draws (draws.between d2.faults.sync_cost.0 d2.faults.sync_cost.1)) _ d2
          (gets-ok (λ d. d) _ d2 ran2)
          λ cost d3 drawn ran3.
            let same = require_online-same d d1 online in
            let drew =
              on_draws-disk (draws.between d2.faults.sync_cost.0 d2.faults.sync_cost.1) d2 d3 cost
                drawn in
            (
              sym (ap (λ p. p.1.image) ran3)
                  ∙ (ap (λ d. d.image) drew
                      ∙ (sym (ap (λ p. p.1.image) set) ∙ ap (λ d. d.image) same)),
              sym (ap (λ p. p.1.durable) ran3)
                  ∙ (ap (λ d. d.durable) drew
                      ∙ (sym (ap (λ p. p.1.durable) set) ∙ ap (λ d. length d.image) same)),
            )

  abbrev grown :
      (rs : List Bytes) (d e : SimStorage R)
      → IsSound d
      → append draws rs d ≡ (ok tt, e)
      → IsSound e
  grown rs d e h ran =
      let (wrote, kept, fits) = append-grows rs d e ran in
      record {
        synced = h.synced;
        unsynced = h.unsynced ++ rs;
        whole =
            wrote
            ∙ (ap (λ b. b ++ Scans.image rs) h.whole
                ∙ (append_assoc (Scans.image h.synced) (Scans.image h.unsynced) (Scans.image rs)
                    ∙ ap (λ b. Scans.image h.synced ++ b) (sym (image-append h.unsynced rs))));
        boundary = kept ∙ h.boundary;
        synced_Fits = h.synced_Fits;
        unsynced_Fits = All-append _ h.unsynced rs h.unsynced_Fits fits;
      }

  abbrev flushed : (d e : SimStorage R) → IsSound d → sync draws d ≡ (ok tt, e) → IsSound e
  flushed d e h ran =
      let (same, set) = sync-settles d e ran in
      record {
        synced = h.synced ++ h.unsynced;
        unsynced = [];
        whole =
            same
            ∙ (h.whole
                ∙ (sym (image-append h.synced h.unsynced) ∙ image_nil (h.synced ++ h.unsynced)));
        boundary = set ∙ ap length (h.whole ∙ sym (image-append h.synced h.unsynced));
        synced_Fits = All-append _ h.synced h.unsynced h.synced_Fits h.unsynced_Fits;
        unsynced_Fits = tt;
      }

  -- Whatever the draws are, the simulated disk keeps the contract of storage on the disks whose
  -- image is whole records with the durable length between two of them: its written records are the
  -- scan of the image, and the durable ones the scan of the durable bytes.
  pub store-Contract : Contract store IsSound written durable_records
  store-Contract = record {
    append_sound = λ rs d e h ran. grown rs d e h ran;
    append_writes = λ rs d e h ran.
        let g = grown rs d e h ran in
        written-records e g
        ∙ (sym (append_assoc h.synced h.unsynced rs)
            ∙ ap (λ l. l ++ rs) (sym (written-records d h)));
    sync_sound = λ d e h ran. flushed d e h ran;
    sync_keeps = λ d e h ran. ap (λ b. (decode_records b).records) (sync-settles d e ran).0;
    sync_durable = λ d e h ran.
        durable-records e (flushed d e h ran)
        ∙ (sym (append-nil _) ∙ sym (written-records e (flushed d e h ran)));
    read_all_log = λ d e rs h ran. read_all-written d e rs ran;
  }
