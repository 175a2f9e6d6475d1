-- ===== src/Codec.antt =====
-- groundhog/codec.py: write-ahead log framing, and the scan that recovery makes.
pub mod Frames
pub mod Scans
pub mod Torn
use ground_hog.Prelude.{
  ℕ, zero, suc, ◌+◌, ◌-◌, ◌*◌, ◌^◌, List, [], ◌∷◌, ◌++◌, Option, none, some, Bool, ltb, leb, ◌==◌,
  if◌then◌else◌, length, take, drop,
}
use ground_hog.Prelude.Outcome.{Outcome, ok, raised, value_error, ensure, ◌>>=◌, ◌>>◌}
use ground_hog.Bytes.{Bytes, be_value, pack_uint}
use ground_hog.Crc.{crc32}

abbrev pub header_size : ℕ
header_size = 8

-- MAX_RECORD_SIZE, 64 MiB
abbrev pub max_record_size : ℕ
max_record_size = 2 ^ 26

pub record Scan : Type 0 where
  pub records : List Bytes
  pub offsets : List ℕ
  pub valid_bytes : ℕ
  pub discarded_bytes : ℕ

unfoldable pub is_torn : Scan → Bool
is_torn s = ltb 0 s.discarded_bytes

-- The checksum covers the length field as well as the payload.
unfoldable pub encode_record : Bytes → Outcome Bytes
encode_record payload = do
  ensure (leb (length payload) max_record_size) value_error
  size ← pack_uint 4 (length payload)
  checksum ← pack_uint 4 (crc32 (size ++ payload))
  ok (size ++ (checksum ++ payload))

unfoldable pub encode_records : List Bytes → Outcome Bytes
encode_records [] = ok []
encode_records (p ∷ ps) = do blob ← encode_record p; rest ← encode_records ps; ok (blob ++ rest)

-- One round of the loop, on `rest`, which is data[offset:]: the payload and the offset behind it,
-- or `none` where the loop stops.
unfoldable pub next_record : ℕ → ℕ → Bytes → Option (Bytes × ℕ)
next_record size offset rest =
    let record_length = be_value (take 4 rest) in
    let checksum = be_value (take 4 (drop 4 rest)) in
    let stop = offset + header_size + record_length in
    let payload = take record_length (drop header_size rest) in
    if ltb size (offset + header_size)
    then none
    else if ltb max_record_size record_length
    then none
    else if ltb size stop
    then none
    else if crc32 (take 4 rest ++ payload) == checksum
    then some (payload, stop)
    else none

-- The loop, with fuel; `records` and `offsets` grow at their ends.
scan_loop : ℕ → Bytes → ℕ → List Bytes → List ℕ → Scan
scan_loop zero bytes offset records offsets = record {
  records = records;
  offsets = offsets;
  valid_bytes = offset;
  discarded_bytes = length bytes - offset;
}
scan_loop (suc fuel) bytes offset records offsets =
    elim (next_record (length bytes) offset (drop offset bytes)) [
      | none ↦ record {
        records = records;
        offsets = offsets;
        valid_bytes = offset;
        discarded_bytes = length bytes - offset;
      }
      | some (payload, stop) ↦
          scan_loop fuel bytes stop (records ++ payload ∷ []) (offsets ++ offset ∷ [])
    ]

-- Every round takes at least the header's eight bytes, so the length of the image is fuel enough.
unfoldable pub decode_records : Bytes → Scan
unfolding scan_loop
decode_records bytes = scan_loop (suc (length bytes)) bytes 0 [] []
