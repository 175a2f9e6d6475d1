-- ===== src/FileStorage/Sound.antt =====
-- The file storage keeps the storage contract, over any file that keeps its laws.
use ground_hog.Prelude.{
  ℕ, ◌+◌, ◌≡◌, refl, sym, ◌∙◌, ap, List, [], ◌∷◌, ◌++◌, length, length-append, append-nil,
  append_assoc, All-append, arith,
}
use ground_hog.Prelude.Outcome.{Outcome, ok, raised}
use ground_hog.Prelude.Exec.{Exec, pure, gets, modify, ◌>>◌}
use ground_hog.Prelude.Steps.{bind-ok_elim, lift-ok_elim, gets-ok}
use ground_hog.Bytes.{Bytes}
use ground_hog.Codec.{header_size, encode_records, decode_records}
use ground_hog.Codec.Scans
use ground_hog.Codec.Scans.{Fits, image-append, encode_records-image}
use ground_hog.Codec.Frames.{frame, length-frame}
use ground_hog.Codec.Torn.{decode-image}
use ground_hog.Storage.{Storage, Contract}
use ground_hog.FileStorage.{
  File, FileLaws, FileStorage, on_file, from_os, as_disk_error, note_records, append, sync,
  read_all,
}

module _ {F : Type 0} where
  -- What the loop leaves.
  record Noted (offset : ℕ) (rs : List Bytes) (s t : FileStorage F) : Type 0 where
    pub records : t.records ≡ s.records ++ rs
    pub ends : t.end ≡ offset + length (Scans.image rs)
    pub same_file : t.file ≡ s.file

  note_records-Noted :
      (offset : ℕ) (rs : List Bytes) (s : FileStorage F)
      → Noted offset rs s (note_records offset rs s)
  unfolding note_records Scans.image
  note_records-Noted offset [] s = record {
    records = sym (append-nil s.records);
    ends = omega arith;
    same_file = refl;
  }
  note_records-Noted offset (r ∷ rs) s =
      let rest =
        note_records-Noted (offset + (header_size + length r)) rs
          (record s { records = s.records ++ r ∷ []; offsets = s.offsets ++ offset ∷ [] }) in
      record {
        records = rest.records ∙ append_assoc s.records (r ∷ []) rs;
        ends = omega (arith, rest.ends, length-frame r, length-append (frame r) (Scans.image rs));
        same_file = rest.same_file;
      }

  -- A call of the file that returned, and what it left of the storage.
  on_file-ok :
      {A : Type 0} (m : Exec F A) (s t : FileStorage F) (a : A)
      → on_file m s ≡ (ok a, t)
      → (m s.file ≡ (ok a, t.file)) × (record s { file = t.file } ≡ t)
  unfolding on_file
  on_file-ok m s t a e =
      let moved : (m s.file).1 ≡ t.file = ap (λ r. r.1.file) e in
      (ap (λ r. (r.0, r.1.file)) e, ap (λ f. record s { file = f }) (sym moved) ∙ ap (λ r. r.1) e)

  as_disk_error-ok :
      {A : Type 0} (m : Exec F A) (f g : F) (a : A)
      → as_disk_error m f ≡ (ok a, g)
      → m f ≡ (ok a, g)
  unfolding as_disk_error
  as_disk_error-ok {A} m f g a e = go (m f) e
    where
      go :
          (r : Outcome A × F)
          → (let x : Outcome A × F = elim r.0 [
            | ok a ↦ (ok a, r.1)
            | raised e ↦ (raised (from_os e), r.1)
          ] in
              x)
            ≡ (ok a, g)
          → r ≡ (ok a, g)
      go (ok b, h) e = e
      go (raised x, h) e = cc

module _ {F : Type 0} (file : File F) (contents handed_over stable : F → Bytes) (position : F → ℕ)
    (law : FileLaws file contents handed_over stable position) where
  -- The file holds the frames of the records, and the offset is behind them.
  pub record IsSound (s : FileStorage F) : Type 0 where
    pub whole : contents s.file ≡ Scans.image s.records
    pub ends : s.end ≡ length (contents s.file)
    pub fits : Fits s.records

  abbrev pub written : FileStorage F → List Bytes
  written s = s.records

  -- What a recovery of the disk finds.
  abbrev pub durable : FileStorage F → List Bytes
  durable s = (decode_records (stable s.file)).records

  abbrev pub file_store : Storage (FileStorage F)
  file_store = record { append = append file; sync = sync file; read_all = read_all file }

  append-IsSound :
      (rs : List Bytes) (s t : FileStorage F)
      → IsSound s
      → append file rs s ≡ (ok tt, t)
      → IsSound t × (t.records ≡ s.records ++ rs)
  unfolding append pure modify
  append-IsSound [] s t h e =
      let same : s ≡ t = ap (λ r. r.1) e in
      (rw (← same) h, rw (← same) (sym (append-nil s.records)))
  append-IsSound (r ∷ rs) s t h e = lift-ok_elim (encode_records (r ∷ rs)) _ s e λ blob hb e1.
      bind-ok_elim (on_file (as_disk_error (file.seek s.end >> file.write blob))) _ s
        (gets-ok (λ s. s) _ s e1)
        λ _ a wrote e2.
          let ran = on_file-ok (as_disk_error (file.seek s.end >> file.write blob)) s a tt wrote in
          bind-ok_elim (file.seek s.end) (λ _. file.write blob) s.file
            (as_disk_error-ok (file.seek s.end >> file.write blob) s.file a.file tt ran.0)
            λ _ f sought put.
              let at_end = law.seeks s.end s.file f sought in
              let grown : contents a.file ≡ contents f ++ blob =
                law.writes blob f a.file put (at_end.1 ∙ h.ends ∙ ap length (sym at_end.0)) in
              let is_image = encode_records-image (r ∷ rs) blob hb in
              let noted = note_records-Noted s.end (r ∷ rs) a in
              let done : note_records s.end (r ∷ rs) a ≡ t = ap (λ r. r.1) e2 in
              let kept : a.records ≡ s.records = ap (λ s. s.records) (sym ran.1) in
              let all : t.records ≡ s.records ++ r ∷ rs =
                ap (λ s. s.records) (sym done) ∙ noted.records ∙ ap (λ l. l ++ r ∷ rs) kept in
              let now : contents t.file ≡ Scans.image s.records ++ Scans.image (r ∷ rs) =
                ap (λ s. contents s.file) (sym done)
                ∙ ap contents noted.same_file
                ∙ grown
                ∙ ap (λ b. b ++ blob) (at_end.0 ∙ h.whole)
                ∙ ap (λ b. Scans.image s.records ++ b) is_image.0 in
              let last : t.end ≡ s.end + length (Scans.image (r ∷ rs)) =
                ap (λ s. s.end) (sym done) ∙ noted.ends in
              let before : s.end ≡ length (Scans.image s.records) = h.ends ∙ ap length h.whole in
              let size = length-append (Scans.image s.records) (Scans.image (r ∷ rs)) in
              (
                record {
                  whole = now ∙ sym (image-append s.records (r ∷ rs)) ∙ ap Scans.image (sym all);
                  ends = last ∙ omega (arith, before, size) ∙ ap length (sym now);
                  fits = rw all (All-append _ s.records (r ∷ rs) h.fits is_image.1);
                },
                all,
              )

  -- A sync that returned changed nothing but what a crash keeps.
  record Synced (s t : FileStorage F) : Type 0 where
    pub same_contents : contents t.file ≡ contents s.file
    pub forced : stable t.file ≡ contents s.file
    pub kept : record s { file = t.file } ≡ t

  sync-Synced : (s t : FileStorage F) → sync file s ≡ (ok tt, t) → Synced s t
  unfolding sync
  sync-Synced s t e =
      let ran = on_file-ok (as_disk_error (file.flush >> file.fsync)) s t tt e in
      bind-ok_elim file.flush (λ _. file.fsync) s.file
        (as_disk_error-ok (file.flush >> file.fsync) s.file t.file tt ran.0)
        λ _ f flushed forced.
          let given = law.flushes s.file f flushed in
          let stays = law.fsyncs f t.file forced in
          record { same_contents = stays.0 ∙ given.0; forced = stays.1 ∙ given.1; kept = ran.1 }

  synced-IsSound : (s t : FileStorage F) → IsSound s → Synced s t → IsSound t
  synced-IsSound s t h k =
      let records : s.records ≡ t.records = ap (λ s. s.records) k.kept in
      record {
        whole = k.same_contents ∙ h.whole ∙ ap Scans.image records;
        ends = ap (λ s. s.end) (sym k.kept) ∙ h.ends ∙ ap length (sym k.same_contents);
        fits = rw (← records) h.fits;
      }

  -- Over a file that keeps its laws, the file storage keeps the contract of storage, where its file is
  -- the frames of its records: what was appended is what it reads, and after a sync that returned, a
  -- recovery of the disk finds all of it.
  pub file_store-Contract : Contract file_store IsSound written durable
  unfolding read_all gets
  file_store-Contract = record {
    append_sound = λ rs s t h e. (append-IsSound rs s t h e).0;
    append_writes = λ rs s t h e. (append-IsSound rs s t h e).1;
    sync_sound = λ s t h e. synced-IsSound s t h (sync-Synced s t e);
    sync_keeps = λ s t h e. sym (ap (λ s. s.records) (sync-Synced s t e).kept);
    sync_durable = λ s t h e.
        let k = sync-Synced s t e in
        ap (λ b. (decode_records b).records) (k.forced ∙ h.whole)
        ∙ ap (λ s. s.records) (decode-image s.records h.fits)
        ∙ ap (λ s. s.records) k.kept;
    read_all_log = λ s t rs h e. let answer : ok s.records ≡ ok rs = ap (λ r. r.0) e in cc;
  }
