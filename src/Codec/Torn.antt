-- ===== src/Codec/Torn.antt =====
-- An image that is cut anywhere: recovery finds the records that are whole before the cut.
use ground_hog.Prelude.{
  ℕ, zero, suc, ◌+◌, ◌-◌, ◌≤◌, ◌≡◌, refl, sym, ap, ◌∙◌, none, List, [], ◌∷◌, ◌++◌, append_assoc,
  append-nil, arith, length, length-append, length-take, take-append, take, All-append, Bool-cases,
  inl, inr, leb, if◌then◌else◌,
}
use ground_hog.Bytes.{Bytes}
use ground_hog.Prelude.Outcome.{ok}
use ground_hog.Codec.{encode_records, next_record, decode_records}
use ground_hog.Codec.Frames.{frame, next_record-torn}
use ground_hog.Codec.Scans.{
  image, image-append, Fits, scan_of, decode_records-stop, encode_records-image,
}

-- The payloads whose frames lie whole in the first `n` bytes.
unfoldable pub fitting : ℕ → List Bytes → List Bytes
fitting n [] = []
fitting n (p ∷ ps) =
    let rest = fitting (n - length (frame p)) ps in
    if leb (length (frame p)) n then p ∷ rest else []

pub fitting-prefix : (n : ℕ) (ps : List Bytes) → fitting n ps ≡ take (length (fitting n ps)) ps
unfolding fitting
fitting-prefix n [] = refl
fitting-prefix n (p ∷ ps) = ground (arith, fitting-prefix (n - length (frame p)) ps)

pub fitting-Fits : (n : ℕ) (ps : List Bytes) → Fits ps → Fits (fitting n ps)
unfolding fitting
fitting-Fits n [] h = tt
fitting-Fits n (p ∷ ps) h = elim (Bool-cases (leb (length (frame p)) n)) [
  | inl whole ↦ rw whole (h.0, fitting-Fits (n - length (frame p)) ps h.1)
  | inr cut ↦ rw cut tt
]

pub take-append_split {ℓ} :
    {A : Type ℓ} (n : ℕ) (xs ys : List A)
    → length xs ≤ n
    → take n (xs ++ ys) ≡ xs ++ take (n - length xs) ys
take-append_split n [] ys h = let same : n - 0 ≡ n = omega arith in rw same
take-append_split zero (x ∷ xs) ys h = absurd (omega arith)
take-append_split (suc n) (x ∷ xs) ys h =
    let same : suc n - suc (length xs) ≡ n - length xs = omega arith in
    rw same (ap (λ l. x ∷ l) (take-append_split n xs ys (omega arith)))

take-append_short {ℓ} :
    {A : Type ℓ} (n : ℕ) (xs ys : List A) → n ≤ length xs → take n (xs ++ ys) ≡ take n xs
take-append_short zero xs ys h = refl
take-append_short (suc n) [] ys h = absurd (omega arith)
take-append_short (suc n) (x ∷ xs) ys h = ap (λ l. x ∷ l) (take-append_short n xs ys (omega arith))

-- What a cut leaves: the whole frames, and bytes at which the scan stops wherever they stand.
record IsCut (bytes : Bytes) (whole : List Bytes) (tail : Bytes) : Type 0 where
  split : bytes ≡ image whole ++ tail
  stops : (offset size : ℕ) → size ≡ offset + length tail → next_record size offset tail ≡ none

image-IsCut :
    (n : ℕ) (ps : List Bytes) → Fits ps → (t : Bytes) × IsCut (take n (image ps)) (fitting n ps) t
unfolding image fitting
image-IsCut zero [] h =
    ([], record { split = refl; stops = λ o s e. unfold next_record in ground arith })
image-IsCut (suc n) [] h =
    ([], record { split = refl; stops = λ o s e. unfold next_record in ground arith })
image-IsCut n (p ∷ ps) h = elim (Bool-cases (leb (length (frame p)) n)) [
  | inl whole ↦
      let (t, c) = image-IsCut (n - length (frame p)) ps h.1 in
      (
        t,
        rw whole (record {
          split =
              take-append_split n (frame p) (image ps) (ground arith)
              ∙ rw c.split (rw append_assoc);
          stops = c.stops;
        }),
      )
  | inr short ↦ (
    take n (frame p),
    rw short (record {
      split = take-append_short n (frame p) (image ps) (ground arith);
      stops = λ o s e.
          next_record-torn p h.0 n s o (ground arith) (ground (arith, length-take n (frame p)));
    }),
  )
]

-- The cut of an image of `qs` behind a whole image of `ps`.
pub decode-cut_image :
    (ps qs : List Bytes) (n : ℕ)
    → Fits ps
    → Fits qs
    → decode_records (image ps ++ take n (image qs))
      ≡ scan_of (ps ++ fitting n qs) (length (take n (image qs)) - length (image (fitting n qs)))
decode-cut_image ps qs n fs fu =
    let (t, c) = image-IsCut n qs fu in
    ap decode_records (
      ap (λ b. image ps ++ b) c.split
      ∙ sym (append_assoc (image ps) (image (fitting n qs)) t)
      ∙ ap (λ b. b ++ t) (sym (image-append ps (fitting n qs))))
    ∙ decode_records-stop (ps ++ fitting n qs) t
        (All-append _ ps (fitting n qs) fs (fitting-Fits n qs fu)) (c.stops _ _ refl)
    ∙ ap (scan_of (ps ++ fitting n qs)) (tail_length t c)
  where
    tail_length :
        (t : Bytes)
        → IsCut (take n (image qs)) (fitting n qs) t
        → length t ≡ length (take n (image qs)) - length (image (fitting n qs))
    tail_length t c = omega (arith, ap length c.split, length-append (image (fitting n qs)) t)

pub decode-image : (ps : List Bytes) → Fits ps → decode_records (image ps) ≡ scan_of ps 0
decode-image ps f =
    ap decode_records (sym (append-nil (image ps)))
    ∙ decode_records-stop ps [] f (unfold next_record in ground arith)

-- A log of which `ps` reached the platter whole and of `qs` the first `n` bytes did: recovery finds
-- `ps`, then the records of `qs` that are whole, and nothing else; the discarded bytes are the rest.
pub decode-cut :
    (ps qs : List Bytes) (n : ℕ) (synced unsynced : Bytes)
    → encode_records ps ≡ ok synced
    → encode_records qs ≡ ok unsynced
    → decode_records (synced ++ take n unsynced)
      ≡ scan_of (ps ++ fitting n qs) (length (take n unsynced) - length (image (fitting n qs)))
decode-cut ps qs n synced unsynced hs hu =
    let (es, fs) = encode_records-image ps synced hs in
    let (eu, fu) = encode_records-image qs unsynced hu in
    rw (es, eu) (decode-cut_image ps qs n fs fu)

-- The whole frames of a cut image come first in it.
pub take-fitting :
    (n : ℕ) (qs : List Bytes)
    → Fits qs
    → take (length (image (fitting n qs))) (take n (image qs)) ≡ image (fitting n qs)
take-fitting n qs f =
    let (t, c) = image-IsCut n qs f in rw c.split (take-append (image (fitting n qs)) t)
