-- ===== src/Codec/Scans.antt =====
-- The scan of an image: whole records are read back, and a torn tail is dropped, so that what
-- recovery finds is always a prefix of what was written.
use mathlib.Core.List.{append_assoc, append-nil}
use ground_hog.Prelude.{
  ℕ, zero, suc, ◌+◌, ◌-◌, ◌≤◌, ◌≡◌, refl, ap, ◌∙◌, none, some, List, [], ◌∷◌, ◌++◌, arith, length,
  length-append, drop, drop-append, All,
}
use ground_hog.Prelude.Outcome.{ok, >>=-ok_elim}
use ground_hog.Bytes.{Bytes}
use ground_hog.Codec.{
  Scan, encode_record, encode_records, next_record, scan_loop, decode_records, max_record_size,
}
use ground_hog.Codec.Frames.{frame, encode_record-frame, length-frame, next_record-frame}

-- The image of a list of payloads, and where each of them starts.
unfoldable pub image : List Bytes → Bytes
image [] = []
image (p ∷ ps) = frame p ++ image ps

unfoldable pub starts : ℕ → List Bytes → List ℕ
starts o [] = []
starts o (p ∷ ps) = o ∷ starts (o + length (frame p)) ps

abbrev pub Fits : List Bytes → Type 0
Fits = All (λ p. length p ≤ max_record_size)

pub encode_records-image :
    (ps : List Bytes) (b : Bytes) → encode_records ps ≡ ok b → (b ≡ image ps) × Fits ps
unfolding encode_records image
encode_records-image [] b h = ground arith
encode_records-image (p ∷ ps) b h = >>=-ok_elim (encode_record p) _ h λ f hf e.
    >>=-ok_elim (encode_records ps) _ e
      λ r hr e'. ground (arith, encode_record-frame p f hf, encode_records-image ps r hr)

pub image-append : (ps qs : List Bytes) → image (ps ++ qs) ≡ image ps ++ image qs
unfolding image
image-append [] qs = refl
image-append (p ∷ ps) qs = rw (image-append ps qs) (rw append_assoc)

-- A round at the end of `pre`, where a whole frame follows.
scan_step :
    (p : Bytes) (fuel : ℕ) (bytes pre rest : Bytes) (rs : List Bytes) (os : List ℕ)
    → length p ≤ max_record_size
    → bytes ≡ pre ++ (frame p ++ rest)
    → scan_loop (suc fuel) bytes (length pre) rs os
      ≡ scan_loop fuel bytes (length (pre ++ frame p)) (rs ++ p ∷ []) (os ++ length pre ∷ [])
unfolding scan_loop
scan_step p fuel bytes pre rest rs os fits e =
    let size : length bytes ≡ length pre + (length (frame p) + length rest) =
      rw e (omega (arith, length-append pre (frame p ++ rest), length-append (frame p) rest)) in
    let found : next_record (length bytes) (length pre) (drop (length pre) bytes)
        ≡ some (p, length pre + length (frame p)) =
      rw (ap (drop (length pre)) e ∙ drop-append pre (frame p ++ rest))
        (next_record-frame p fits (length bytes) (length pre) rest (omega arith)) in
    ground (arith, found, length-append pre (frame p))

-- Where the scan stands at the end of `pre`, it reads all whole records that follow.
scan_whole :
    (ps : List Bytes) (fuel more : ℕ) (bytes pre tail : Bytes) (rs : List Bytes) (os : List ℕ)
    → Fits ps
    → fuel ≡ length ps + more
    → bytes ≡ pre ++ (image ps ++ tail)
    → scan_loop fuel bytes (length pre) rs os
      ≡ scan_loop more bytes (length (pre ++ image ps)) (rs ++ ps) (os ++ starts (length pre) ps)
unfolding image starts
scan_whole [] fuel more bytes pre tail rs os fits e eb =
    let same : fuel ≡ more = omega arith in rw (same, append-nil pre, append-nil rs, append-nil os)
scan_whole (p ∷ ps) zero more bytes pre tail rs os fits e eb = absurd (omega arith)
scan_whole (p ∷ ps) (suc fuel) more bytes pre tail rs os fits e eb =
    scan_step p fuel bytes pre (image ps ++ tail) rs os fits.0
      (eb ∙ ap (λ t. pre ++ t) (append_assoc (frame p) (image ps) tail))
    ∙ scan_whole ps fuel more bytes (pre ++ frame p) tail (rs ++ p ∷ []) (os ++ length pre ∷ [])
        fits.1 (omega arith) (eb ∙ simp append_assoc)
    ∙ simp (append_assoc, length-append)

-- The scan of whole records, cut in the middle of the next one or not at all.
scan_stops :
    (fuel : ℕ) (bytes pre : Bytes) (rs : List Bytes) (os : List ℕ)
    → next_record (length bytes) (length pre) (drop (length pre) bytes) ≡ none
    → scan_loop fuel bytes (length pre) rs os ≡ record {
      records = rs;
      offsets = os;
      valid_bytes = length pre;
      discarded_bytes = length bytes - length pre;
    }
unfolding scan_loop
scan_stops zero bytes pre rs os e = refl
scan_stops (suc fuel) bytes pre rs os e = ground (arith, e)

length-le-image : (ps : List Bytes) → length ps ≤ length (image ps)
unfolding image
length-le-image [] = omega arith
length-le-image (p ∷ ps) =
    omega (arith, length-append (frame p) (image ps), length-frame p, length-le-image ps)

abbrev pub scan_of : List Bytes → ℕ → Scan
scan_of ps torn = record {
  records = ps;
  offsets = starts 0 ps;
  valid_bytes = length (image ps);
  discarded_bytes = torn;
}

-- Whole records, and behind them bytes at which the scan stops.
pub decode_records-stop :
    (ps : List Bytes) (tail : Bytes)
    → Fits ps
    → next_record (length (image ps) + length tail) (length (image ps)) tail ≡ none
    → decode_records (image ps ++ tail) ≡ scan_of ps (length tail)
unfolding decode_records
decode_records-stop ps tail fits e =
    let size : length (image ps ++ tail) ≡ length (image ps) + length tail =
      length-append (image ps) tail in
    let more : ℕ = suc (length (image ps ++ tail)) - length ps in
    scan_whole ps (suc (length (image ps ++ tail))) more (image ps ++ tail) [] tail [] [] fits
      (omega (arith, length-le-image ps)) refl
    ∙ scan_stops more (image ps ++ tail) (image ps) ps (starts 0 ps)
        (rw (size, drop-append (image ps) tail) e)
    ∙ ground (arith, size)
