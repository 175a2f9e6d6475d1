-- ===== src/Kv/RoundTrip.antt =====
-- `decode_command` reads back what `encode_command` wrote.
use ground_hog.Prelude.{
  ℕ, ◌^◌, ◌<◌, ◌≡◌, ◌++◌, arith, length, length-append, take-append, drop-append, take-all,
}
use ground_hog.Prelude.Outcome.{ok, >>=-ok_elim}
use ground_hog.Bytes.{Bytes, be_bytes, pack_uint, be_value-be_bytes}
use ground_hog.Utf8.{utf8_encode, utf8_decode-encode}
use ground_hog.Kv.{Command, Op, code_by_op, op_by_code, pack_header, encode_command, decode_command}

op_by_code-code : (o : Op) (c : ℕ) → code_by_op o ≡ ok c → op_by_code c ≡ ok o
unfolding code_by_op op_by_code
op_by_code-code o c h = ground arith

-- A header that packs is its three fields, and each of them fits.
record IsHeader (code kl vl : ℕ) (h : Bytes) : Type 0 where
  code_fits : code < 256 ^ 1
  key_fits : kl < 256 ^ 2
  value_fits : vl < 256 ^ 4
  shape : h ≡ be_bytes 1 code ++ (be_bytes 2 kl ++ be_bytes 4 vl)

pack_header-IsHeader :
    (code kl vl : ℕ) (h : Bytes) → pack_header code kl vl ≡ ok h → IsHeader code kl vl h
unfolding pack_header pack_uint
pack_header-IsHeader code kl vl h e = ground arith

decode_parts :
    (c : Command) (code : ℕ) (key value h : Bytes)
    → code_by_op c.op ≡ ok code
    → utf8_encode c.key ≡ ok key
    → utf8_encode c.value ≡ ok value
    → IsHeader code (length key) (length value) h
    → decode_command (h ++ (key ++ value)) ≡ ok c
unfolding decode_command be_bytes
decode_parts c code key value h hc hk hv p = rw p.shape (
    ground (
      arith,
      be_value-be_bytes 1 code p.code_fits,
      be_value-be_bytes 2 (length key) p.key_fits,
      be_value-be_bytes 4 (length value) p.value_fits,
      length-append key value,
      take-append key value,
      drop-append key value,
      take-all (length value) value,
      op_by_code-code c.op code hc,
      utf8_decode-encode c.key key hk,
      utf8_decode-encode c.value value hv,
    ))

-- A command that encodes is read back unchanged from its bytes.
pub decode-encode_command :
    (c : Command) (b : Bytes) → encode_command c ≡ ok b → decode_command b ≡ ok c
unfolding encode_command
decode-encode_command c b e = >>=-ok_elim (code_by_op c.op) _ e λ code hc e.
    >>=-ok_elim (utf8_encode c.key) _ e λ key hk e.
      >>=-ok_elim (utf8_encode c.value) _ e λ value hv e.
        >>=-ok_elim (pack_header code (length key) (length value)) _ e λ h hh e.
          ground (arith, decode_parts c code key value h hc hk hv (pack_header-IsHeader _ _ _ h hh))
