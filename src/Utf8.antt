-- ===== src/Utf8.antt =====
-- `str.encode("utf-8")` and `bytes.decode("utf-8")`, which kv.py stores keys and values with.
-- Encoding raises on a surrogate; decoding raises on what the encoder cannot have written.
use ground_hog.Prelude.{
  ℕ, ◌+◌, ◌-◌, ◌*◌, ◌/◌, ◌%◌, ◌<◌, ◌≤◌, ◌≡◌, List, [], ◌∷◌, ◌++◌, arith, ltb, leb, if◌then◌else◌,
  Bool, false, ◌&&◌, ◌||◌, not, ◌==◌,
}
use ground_hog.Prelude.Dict.{Text}
use ground_hog.Prelude.Outcome.{Outcome, ok, raised, unicode_error, ◌>>=◌, >>=-ok_elim}
use ground_hog.Bytes.{Bytes}

abbrev is_surrogate : ℕ → Bool
is_surrogate c = leb 0xd800 c && ltb c 0xe000

encode_char : ℕ → Outcome Bytes
encode_char c =
    if ltb c 0x80
    then ok (c ∷ [])
    else if ltb c 0x800
    then ok ((0xc0 + c / 64) ∷ (0x80 + c % 64) ∷ [])
    else if is_surrogate c || leb 0x110000 c
    then raised unicode_error
    else if ltb c 0x10000
    then ok ((0xe0 + c / 4096) ∷ (0x80 + c / 64 % 64) ∷ (0x80 + c % 64) ∷ [])
    else ok
        ((0xf0 + c / 262144) ∷ (0x80 + c / 4096 % 64) ∷ (0x80 + c / 64 % 64) ∷ (0x80 + c % 64) ∷ [])

unfoldable pub utf8_encode : Text → Outcome Bytes
unfolding encode_char
utf8_encode [] = ok []
utf8_encode (c ∷ s) = do b ← encode_char c; r ← utf8_encode s; ok (b ++ r)

abbrev is_cont : ℕ → Bool
is_cont b = leb 0x80 b && ltb b 0xc0

-- Between two bytes: how many continuation bytes are due, what is read of the character, and the
-- least code point that needs its length.
pub record Pending : Type 0 where
  pub due : ℕ
  pub acc : ℕ
  pub least : ℕ

abbrev pub between_chars : Pending
between_chars = record { due = 0; acc = 0; least = 0 }

-- What the byte does: a wait for more, or a character that is complete.
first_byte : ℕ → Outcome (Pending × List ℕ)
first_byte b =
    if ltb b 0x80
    then ok (between_chars, b ∷ [])
    else if ltb b 0xc0
    then raised unicode_error
    else if ltb b 0xe0
    then ok (record { due = 1; acc = b - 0xc0; least = 0x80 }, [])
    else if ltb b 0xf0
    then ok (record { due = 2; acc = b - 0xe0; least = 0x800 }, [])
    else if ltb b 0xf8
    then ok (record { due = 3; acc = b - 0xf0; least = 0x10000 }, [])
    else raised unicode_error

complete : ℕ → ℕ → Outcome (Pending × List ℕ)
complete c least =
    if leb least c && ltb c 0x110000 && not (is_surrogate c)
    then ok (between_chars, c ∷ [])
    else raised unicode_error

next_byte : Pending → ℕ → Outcome (Pending × List ℕ)
unfolding first_byte complete
next_byte p b =
    let c = p.acc * 64 + (b - 0x80) in
    if p.due == 0
    then first_byte b
    else if not (is_cont b)
    then raised unicode_error
    else if p.due == 1
    then complete c p.least
    else ok (record { due = p.due - 1; acc = c; least = p.least }, [])

decode_from : Pending → Bytes → Outcome Text
unfolding next_byte
decode_from p [] = if p.due == 0 then ok [] else raised unicode_error
decode_from p (b ∷ l) = do step ← next_byte p b; s ← decode_from step.0 l; ok (step.1 ++ s)

unfoldable pub utf8_decode : Bytes → Outcome Text
unfolding decode_from
utf8_decode = decode_from between_chars

abbrev cons_ok : ℕ → Outcome Text → Outcome Text
cons_ok c t = t >>= λ s. ok (c ∷ s)

module _ (l : Bytes) where
  decode_one :
      (c : ℕ)
      → c < 0x80
      → decode_from between_chars (c ∷ l) ≡ cons_ok c (decode_from between_chars l)
  unfolding decode_from
  decode_one c hi = ground arith

  decode_two :
      (c : ℕ)
      → 0x80 ≤ c
      → c < 0x800
      → decode_from between_chars ((0xc0 + c / 64) ∷ (0x80 + c % 64) ∷ l)
        ≡ cons_ok c (decode_from between_chars l)
  unfolding decode_from
  decode_two c lo hi = ground arith

  decode_three :
      (c : ℕ)
      → 0x800 ≤ c
      → c < 0x10000
      → is_surrogate c ≡ false
      → decode_from between_chars ((0xe0 + c / 4096) ∷ (0x80 + c / 64 % 64) ∷ (0x80 + c % 64) ∷ l)
        ≡ cons_ok c (decode_from between_chars l)
  unfolding decode_from
  decode_three c lo hi s = ground arith

  decode_four :
      (c : ℕ)
      → 0x10000 ≤ c
      → c < 0x110000
      → decode_from between_chars (
          (0xf0 + c / 262144) ∷ (0x80 + c / 4096 % 64) ∷ (0x80 + c / 64 % 64) ∷ (0x80 + c % 64) ∷ l)
        ≡ cons_ok c (decode_from between_chars l)
  unfolding decode_from
  decode_four c lo hi = ground arith

  decode-encode_char :
      (c : ℕ) (b : Bytes)
      → encode_char c ≡ ok b
      → decode_from between_chars (b ++ l) ≡ cons_ok c (decode_from between_chars l)
  unfolding encode_char
  decode-encode_char c b h =
      ground (arith, decode_one c, decode_two c, decode_three c, decode_four c)

-- What encodes, decodes to the same text.
pub utf8_decode-encode : (s : Text) (b : Bytes) → utf8_encode s ≡ ok b → utf8_decode b ≡ ok s
unfolding utf8_encode utf8_decode
utf8_decode-encode [] b h = ground arith
utf8_decode-encode (c ∷ s) b h = >>=-ok_elim (encode_char c) _ h λ d hd h'.
    >>=-ok_elim (utf8_encode s) _ h'
      λ r hr e. ground (arith, decode-encode_char r c d, utf8_decode-encode s r hr)
