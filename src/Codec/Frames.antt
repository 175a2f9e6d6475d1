-- ===== src/Codec/Frames.antt =====
-- One frame: a whole record is read back, and one that is cut short ends the scan.
use ground_hog.Prelude.{
  ℕ, suc, ◌+◌, ◌-◌, ◌<◌, ◌≤◌, ◌≡◌, none, some, ◌++◌, arith, length, take, take-append, ltb,
  Bool-cases, inl, inr,
}
use ground_hog.Prelude.Outcome.{ok}
use ground_hog.Bytes.{Bytes, be_bytes, pack_uint, be_value-be_bytes}
use ground_hog.Crc.{crc32, crc32-lt}
use ground_hog.Codec.{encode_record, next_record, max_record_size}

-- The bytes that `encode_record` writes for a payload that is not too long.
unfoldable pub frame : Bytes → Bytes
frame p = be_bytes 4 (length p) ++ (be_bytes 4 (crc32 (be_bytes 4 (length p) ++ p)) ++ p)

pub encode_record-frame :
    (p b : Bytes) → encode_record p ≡ ok b → (b ≡ frame p) × (length p ≤ max_record_size)
unfolding encode_record pack_uint frame
encode_record-frame p b h = ground arith

pub length-frame : (p : Bytes) → length (frame p) ≡ 8 + length p
unfolding frame be_bytes
length-frame p = omega arith

module _ (p : Bytes) (fits : length p ≤ max_record_size) where
  -- A whole frame, whatever follows it.
  pub next_record-frame :
      (size offset : ℕ) (rest : Bytes)
      → offset + length (frame p) ≤ size
      → next_record size offset (frame p ++ rest) ≡ some (p, offset + length (frame p))
  unfolding next_record frame be_bytes
  next_record-frame size offset rest h = ground (
    arith,
    be_value-be_bytes 4 (length p) (omega arith),
    be_value-be_bytes 4 (crc32 (be_bytes 4 (length p) ++ p)) (crc32-lt _),
    take-append p rest,
  )

  torn_payload :
      (m size offset : ℕ)
      → m < length p
      → size ≡ offset + 8 + m
      → next_record size offset (take (suc (suc (suc (suc (suc (suc (suc (suc m)))))))) (frame p))
        ≡ none
  unfolding next_record frame be_bytes
  torn_payload m size offset h e = ground (arith, be_value-be_bytes 4 (length p) (omega arith))

  -- A frame that is cut short anywhere, at the end of the image.
  pub next_record-torn :
      (n size offset : ℕ)
      → n < length (frame p)
      → size ≡ offset + n
      → next_record size offset (take n (frame p)) ≡ none
  unfolding next_record
  next_record-torn n size offset h e = elim (Bool-cases (ltb n 8)) [
    | inl short ↦ ground arith
    | inr long ↦
        let m : ℕ = n - 8 in
        let eight : n ≡ suc (suc (suc (suc (suc (suc (suc (suc m))))))) = ground arith in
        rw eight (torn_payload m size offset (omega (arith, length-frame p)) (omega arith))
  ]
