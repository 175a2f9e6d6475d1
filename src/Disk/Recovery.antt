-- ===== src/Disk/Recovery.antt =====
-- A crash of the simulated disk, the restart after it, and what of the records is left.
use ground_hog.Prelude.{
  ℕ, ◌+◌, ◌-◌, ◌≡◌, ◌∙◌, ap, sym, List, [], ◌++◌, true, take, All-append, length, length-append,
  take-append, append-nil, arith,
}
use ground_hog.Prelude.Outcome.{Outcome, ok}
use ground_hog.Prelude.Exec.{lift, gets, modify}
use ground_hog.Prelude.Steps.{bind-ok_elim, gets-ok, lift-ok_elim}
use ground_hog.Bytes.{Bytes}
use ground_hog.Codec.{decode_records}
use ground_hog.Codec.Scans
use ground_hog.Codec.Scans.{Fits, image-append, encode_records-image, decode_records-stop, scan_of}
use ground_hog.Codec.Torn.{
  decode-image, decode-cut_image, fitting, fitting-Fits, take-append_split, take-fitting,
}
use ground_hog.Disk.{
  SimStorage, require_online, read_all, crash_after, restart, durable_records, is_online,
}

module _ {R : Type 0} where
  -- The synced records and the rest.
  pub record IsSound (d : SimStorage R) : Type 0 where
    pub synced : List Bytes
    pub unsynced : List Bytes
    pub whole : d.image ≡ Scans.image synced ++ Scans.image unsynced
    pub boundary : d.durable ≡ length (Scans.image synced)
    pub synced_Fits : Fits synced
    pub unsynced_Fits : Fits unsynced

  abbrev pub written : SimStorage R → List Bytes
  written d = (decode_records d.image).records

  pub require_online-same : (d e : SimStorage R) → require_online d ≡ (ok tt, e) → e ≡ d
  unfolding require_online lift
  require_online-same d e ran =
      lift-ok_elim _ _ d (gets-ok (λ d. d) _ d ran) λ _ up ran'. last _ ran'
    where
      last : (r : Outcome (Unit {0})) → lift r d ≡ (ok tt, e) → e ≡ d
      last r p = sym (ap (λ p. p.1) p)

  pub read_all-written :
      (d e : SimStorage R) (rs : List Bytes) → read_all d ≡ (ok rs, e) → rs ≡ written d
  unfolding read_all gets
  read_all-written d e rs ran = bind-ok_elim require_online _ d ran λ _ d1 online ran1.
      let found : ok (written d1) ≡ ok rs = ap (λ p. p.0) ran1 in
      let same : d1 ≡ d = require_online-same d d1 online in cc

  pub written-records : (d : SimStorage R) (h : IsSound d) → written d ≡ h.synced ++ h.unsynced
  written-records d h =
      ap (λ s. s.records)
        (ap decode_records (h.whole ∙ sym (image-append h.synced h.unsynced))
          ∙ decode-image (h.synced ++ h.unsynced)
              (All-append _ h.synced h.unsynced h.synced_Fits h.unsynced_Fits))

  pub durable-records : (d : SimStorage R) (h : IsSound d) → durable_records d ≡ h.synced
  durable-records d h =
      ap (λ s. s.records)
        (ap decode_records
            (rw (h.boundary, h.whole) (take-append (Scans.image h.synced) (Scans.image h.unsynced)))
          ∙ decode-image h.synced h.synced_Fits)

pub image_nil : (ps : List Bytes) → Scans.image ps ≡ Scans.image ps ++ Scans.image []
unfolding Scans.image
image_nil ps = sym (append-nil (Scans.image ps))

-- After a crash and a recovery.
pub record Recovered {R : Type 0} (d f : SimStorage R) (kept : ℕ) (h : IsSound d) : Type 0 where
  pub sound : IsSound f
  pub records : written f ≡ h.synced ++ fitting kept h.unsynced
  pub synced : durable_records f ≡ written f
  pub online : is_online f ≡ true

module _ {R : Type 0} where
  crash_after-image :
      (kept : ℕ) (d e : SimStorage R) (h : IsSound d)
      → crash_after kept d ≡ (ok tt, e)
      → e.image ≡ Scans.image h.synced ++ take kept (Scans.image h.unsynced)
  unfolding crash_after modify
  crash_after-image kept d e h ran = lift-ok_elim _ _ d (gets-ok (λ d. d) _ d ran) λ _ _ ran1.
      let back : d.durable + kept - length (Scans.image h.synced) ≡ kept =
        omega (arith, h.boundary) in
      sym (ap (λ p. p.1.image) ran1)
      ∙ (ap (take (d.durable + kept)) h.whole
          ∙ (take-append_split (d.durable + kept) (Scans.image h.synced) (Scans.image h.unsynced)
                (omega (arith, h.boundary))
              ∙ ap (λ k. Scans.image h.synced ++ take k (Scans.image h.unsynced)) back))

  restart-image :
      (kept : ℕ) (ps qs : List Bytes) (e f : SimStorage R)
      → Fits ps
      → Fits qs
      → e.image ≡ Scans.image ps ++ take kept (Scans.image qs)
      → restart e ≡ (ok tt, f)
      → f.image ≡ Scans.image (ps ++ fitting kept qs)
  unfolding restart modify
  restart-image kept ps qs e f fp fq torn ran =
      let valid : (decode_records e.image).valid_bytes
          ≡ length (Scans.image (ps ++ fitting kept qs)) =
        ap (λ s. s.valid_bytes) (ap decode_records torn ∙ decode-cut_image ps qs kept fp fq) in
      let size : length (Scans.image (ps ++ fitting kept qs))
          ≡ length (Scans.image ps) + length (Scans.image (fitting kept qs)) =
        ap length (image-append ps (fitting kept qs))
        ∙ length-append (Scans.image ps) (Scans.image (fitting kept qs)) in
      let back : length (Scans.image ps)
            + length (Scans.image (fitting kept qs))
            - length (Scans.image ps)
          ≡ length (Scans.image (fitting kept qs)) =
        omega arith in
      sym (ap (λ p. p.1.image) ran)
      ∙ (rw (valid, size, torn)
          (take-append_split (length (Scans.image ps) + length (Scans.image (fitting kept qs)))
              (Scans.image ps) (take kept (Scans.image qs)) (omega arith)
            ∙ (ap (λ k. Scans.image ps ++ take k (take kept (Scans.image qs))) back
                ∙ (ap (λ b. Scans.image ps ++ b) (take-fitting kept qs fq)
                    ∙ sym (image-append ps (fitting kept qs))))))

  restart-flags :
      (e f : SimStorage R)
      → restart e ≡ (ok tt, f)
      → (f.durable ≡ length f.image) × (is_online f ≡ true)
  unfolding restart modify
  restart-flags e f ran = (
    sym (ap (λ p. p.1.durable) ran) ∙ ap (λ p. length p.1.image) ran,
    sym (ap (λ (p : Outcome (Unit {0}) × SimStorage R). is_online p.1) ran),
  )

  -- A sound disk holds whole records, cut by the durable mark between two of them; one on which a
  -- write failed may not. After a crash of a sound disk that keeps some unsynced bytes and a restart,
  -- the disk is sound and online again, its records are the synced ones and then those unsynced ones
  -- that lie whole in the kept bytes, and all of them are durable.
  pub crash_after-restart :
      (kept : ℕ) (d e f : SimStorage R) (h : IsSound d)
      → crash_after kept d ≡ (ok tt, e)
      → restart e ≡ (ok tt, f)
      → Recovered d f kept h
  crash_after-restart kept d e f h crashed ran =
      let left : f.image ≡ Scans.image (h.synced ++ fitting kept h.unsynced) =
        restart-image kept h.synced h.unsynced e f h.synced_Fits h.unsynced_Fits
          (crash_after-image kept d e h crashed) ran in
      let (all, up) = restart-flags e f ran in
      let fits : Fits (h.synced ++ fitting kept h.unsynced) =
        All-append _ h.synced (fitting kept h.unsynced) h.synced_Fits
          (fitting-Fits kept h.unsynced h.unsynced_Fits) in
      let sound : IsSound f = record {
        synced = h.synced ++ fitting kept h.unsynced;
        unsynced = [];
        whole = left ∙ image_nil (h.synced ++ fitting kept h.unsynced);
        boundary = all ∙ ap length left;
        synced_Fits = fits;
        unsynced_Fits = tt;
      } in
      record {
        sound = sound;
        records = written-records f sound ∙ append-nil (h.synced ++ fitting kept h.unsynced);
        synced = durable-records f sound ∙ (sym (append-nil _) ∙ sym (written-records f sound));
        online = up;
      }
