-- ===== src/Kv.antt =====
-- groundhog/kv.py: the commands, their binary form, and the state machine that applies them.
pub mod RoundTrip
pub mod Laws
use ground_hog.Prelude.{
  ℕ, ◌+◌, ◌<◌, ◌≡◌, List, [], ◌∷◌, ◌++◌, Option, none, some, Bool, true, false, ◌&&◌, ltb, leb,
  ◌==◌, if◌then◌else◌, length, take, drop, map,
}
use ground_hog.Prelude.Dict.{Text, text_key, Dict, lookup, insert, erase}
use ground_hog.Prelude.Outcome.{
  Outcome, ok, raised, value_error, struct_error, key_error, ensure, ◌>>=◌, ◌>>◌,
}
use ground_hog.Prelude.Sort.{sorted_texts}
use ground_hog.Bytes.{Bytes, be_value, pack_uint}
use ground_hog.Utf8.{utf8_encode, utf8_decode}

-- `Command.op` is a str; the module knows the two that it names, and any other is `other_op`.
pub data Op : Type 0 where
  put_op delete_op : Op
  other_op : Text → Op

pub record Command : Type 0 where
  pub op : Op
  pub key : Text
  pub value : Text

-- `Command.put` and `Command.delete`
abbrev pub put : Text → Text → Command
put k v = record { op = put_op; key = k; value = v }

abbrev pub delete : Text → Command
delete k = record { op = delete_op; key = k; value = [] }

-- _CODE_BY_OP and _OP_BY_CODE
code_by_op : Op → Outcome ℕ
code_by_op put_op = ok 1
code_by_op delete_op = ok 2
code_by_op (other_op _) = raised value_error

op_by_code : ℕ → Outcome Op
op_by_code c = if c == 1 then ok put_op else if c == 2 then ok delete_op else raised key_error

-- _HEADER: op code, key length and value length, as ">BHI"
pack_header : ℕ → ℕ → ℕ → Outcome Bytes
pack_header code key_length value_length = do
  a ← pack_uint 1 code
  b ← pack_uint 2 key_length
  c ← pack_uint 4 value_length
  ok (a ++ (b ++ c))

abbrev pub header_size : ℕ
header_size = 7

unfoldable pub encode_command : Command → Outcome Bytes
unfolding code_by_op pack_header
encode_command command = do
  code ← code_by_op command.op
  key ← utf8_encode command.key
  value ← utf8_encode command.value
  header ← pack_header code (length key) (length value)
  ok (header ++ (key ++ value))

-- `unpack_from` raises on fewer bytes than the header has.
unfoldable pub decode_command : Bytes → Outcome Command
unfolding op_by_code
decode_command bytes = do
  ensure (leb header_size (length bytes)) struct_error
  let code = be_value (take 1 bytes)
  let key_length = be_value (take 2 (drop 1 bytes))
  let value_length = be_value (take 4 (drop 3 bytes))
  let body = drop header_size bytes
  ensure (header_size + key_length + value_length == length bytes) value_error
  op ← op_by_code code
  key ← utf8_decode (take key_length body)
  value ← utf8_decode (take value_length (drop key_length body))
  ok (record { op = op; key = key; value = value })

pub record KvStore : Type 0 where
  pub entries : Dict Text Text
  pub applied : ℕ

abbrev pub empty : KvStore
empty = record { entries = []; applied = 0 }

-- `_data` after the command: any op that is not PUT removes the key.
abbrev pub write : Command → Dict Text Text → Dict Text Text
write c d = elim c.op [ put_op ↦ insert c.key c.value d | _ ↦ erase c.key d ]

unfoldable pub apply : Command → KvStore → KvStore
apply c s = record { entries = write c s.entries; applied = s.applied + 1 }

unfoldable pub get : KvStore → Text → Option Text
get s k = lookup k s.entries

-- `KvStore.all_keys`
unfoldable pub all_keys : KvStore → List Text
all_keys s = sorted_texts (map (λ p. p.0) s.entries)

-- `KvStore.replay`
replay_from : KvStore → List Bytes → Outcome KvStore
replay_from s [] = ok s
replay_from s (r ∷ rs) = do c ← decode_command r; replay_from (apply c s) rs

unfoldable pub replay : List Bytes → Outcome KvStore
unfolding replay_from
replay = replay_from empty
