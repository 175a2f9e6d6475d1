-- ===== src/FileStorage.antt =====
-- groundhog/storage.py, `class FileStorage`: the log over a real file. The file object is the
-- operating system's: its calls are parameters, and what the code relies on is stated as laws. Making
-- the directory and the file, and closing it, are not modelled.
pub mod Sound
use ground_hog.Prelude.{
  ℕ, ◌+◌, ◌≡◌, List, [], ◌∷◌, ◌++◌, Option, none, some, ltb, length, take, get_elem?,
}
use ground_hog.Prelude.Outcome.{Outcome, ok, raised, Error, disk_error, os_error, index_error}
use ground_hog.Prelude.Exec.{Exec, pure, raise, lift, gets, modify, when, ◌>>=◌, ◌>>◌}
use ground_hog.Bytes.{Bytes}
use ground_hog.Codec.{header_size, encode_records, decode_records, is_torn}

-- The methods of the open file that the code calls, and `os.fsync` of its descriptor.
pub record File (F : Type 0) : Type 0 where
  pub read : Exec F Bytes
  pub seek : ℕ → Exec F (Unit {0})
  pub write : Bytes → Exec F (Unit {0})
  pub truncate : ℕ → Exec F (Unit {0})
  pub flush : Exec F (Unit {0})
  pub fsync : Exec F (Unit {0})

-- What the documentation of the file says of a call that returns: a write at the end of the file
-- extends it, a flush hands what was written to the operating system, and `fsync` forces that to the
-- disk.
pub record FileLaws {F : Type 0} (file : File F) (contents handed_over stable : F → Bytes)
    (position : F → ℕ) : Type 0 where
  pub seeks :
      (n : ℕ) (f g : F)
      → file.seek n f ≡ (ok tt, g)
      → (contents g ≡ contents f) × (position g ≡ n) × (stable g ≡ stable f)
  pub writes :
      (bytes : Bytes) (f g : F)
      → file.write bytes f ≡ (ok tt, g)
      → position f ≡ length (contents f)
      → contents g ≡ contents f ++ bytes
  pub flushes :
      (f g : F)
      → file.flush f ≡ (ok tt, g)
      → (contents g ≡ contents f) × (handed_over g ≡ contents f)
  pub fsyncs :
      (f g : F) → file.fsync f ≡ (ok tt, g) → (contents g ≡ contents f) × (stable g ≡ handed_over f)

pub record FileStorage (F : Type 0) : Type 0 where
  pub file : F
  pub records : List Bytes
  pub offsets : List ℕ
  pub end : ℕ
  pub discarded_on_open : ℕ

-- What `except OSError as exc: raise DiskError(str(exc)) from exc` lets out.
abbrev pub from_os : Error → Error
from_os os_error = disk_error
from_os e = e

module _ {F : Type 0} where
  -- A call of the file, as it is and behind `except OSError`, which no other exception is.
  unfoldable pub on_file : {A : Type 0} → Exec F A → Exec (FileStorage F) A
  on_file m s = let r = m s.file in (r.0, record s { file = r.1 })

  unfoldable pub as_disk_error : {A : Type 0} → Exec F A → Exec F A
  as_disk_error m f =
      let (r, g) = m f in elim r [ ok a ↦ (ok a, g) | raised e ↦ (raised (from_os e), g) ]

  -- The loop of `append` over the records that were written.
  note_records : ℕ → List Bytes → FileStorage F → FileStorage F
  note_records offset [] s = record s { end = offset }
  note_records offset (r ∷ rs) s =
      note_records (offset + (header_size + length r)) rs
        (record s { records = s.records ++ r ∷ []; offsets = s.offsets ++ offset ∷ [] })

module _ {F : Type 0} (file : File F) where
  -- `FileStorage(path)`, once the file is open: the scan, and the torn tail cut off.
  unfoldable pub open_file : Exec F (FileStorage F)
  open_file = do
    bytes ← file.read
    let scan = decode_records bytes
    when (is_torn scan) (file.truncate scan.valid_bytes)
    file.seek scan.valid_bytes
    f ← gets (λ f. f)
    pure (record {
      file = f;
      records = scan.records;
      offsets = scan.offsets;
      end = scan.valid_bytes;
      discarded_on_open = scan.discarded_bytes;
    })

  unfoldable pub append : List Bytes → Exec (FileStorage F) (Unit {0})
  unfolding on_file as_disk_error note_records
  append [] = pure tt
  append (r ∷ rs) = do
    blob ← lift (encode_records (r ∷ rs))
    s ← gets (λ s. s)
    on_file (as_disk_error (file.seek s.end >> file.write blob))
    modify (note_records s.end (r ∷ rs))

  unfoldable pub sync : Exec (FileStorage F) (Unit {0})
  unfolding on_file as_disk_error
  sync = on_file (as_disk_error (file.flush >> file.fsync))

  unfoldable pub read_all : Exec (FileStorage F) (List Bytes)
  read_all = gets (λ s. s.records)

  abbrev at_offset : Option ℕ → ℕ → ℕ
  at_offset none end = end
  at_offset (some offset) end = offset

  unfoldable pub truncate_from : ℕ → Exec (FileStorage F) (Unit {0})
  unfolding on_file
  truncate_from index = do
    s ← gets (λ s. s)
    when (ltb (length s.records) index) (raise index_error)
    let offset = at_offset (get_elem? s.offsets index) s.end
    on_file (file.flush >> (file.truncate offset >> file.seek offset))
    modify (λ s. record s {
      end = offset;
      records = take index s.records;
      offsets = take index s.offsets;
    })
