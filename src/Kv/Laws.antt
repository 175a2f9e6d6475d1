-- ===== src/Kv/Laws.antt =====
-- The state machine of groundhog/kv.py: what a command does to each key, and the replay of a log of
-- commands.
use ground_hog.Prelude.{◌≡◌, refl, List, [], ◌∷◌, ◌++◌, Option, none, some, if◌then◌else◌}
use ground_hog.Prelude.Dict.{Text, text_key, Dict, lookup, lookup-insert, lookup-erase}
use ground_hog.Prelude.Outcome.{Outcome, ok, ◌>>=◌, >>=-ok_elim}
use ground_hog.Bytes.{Bytes}
use ground_hog.Kv.{
  Op, Command, put_op, delete_op, other_op, encode_command, KvStore, empty, write, apply, get,
  replay_from, replay, decode_command,
}
use ground_hog.Kv.RoundTrip.{decode-encode_command}

-- What a command leaves under its own key.
abbrev pub left_by : Command → Option Text
left_by c = elim c.op [ put_op ↦ some c.value | _ ↦ none ]

lookup-write :
    (o : Op) (j v k : Text) (d : Dict Text Text)
    → lookup k (write (record { op = o; key = j; value = v }) d)
      ≡ (if text_key.beq j k then left_by (record { op = o; key = j; value = v }) else lookup k d)
lookup-write put_op j v k d = lookup-insert j k v d
lookup-write delete_op j v k d = lookup-erase j k d
lookup-write (other_op o) j v k d = lookup-erase j k d

-- After any command the store finds, under the command's key, the value of a put and nothing after
-- any other operation; every other key is as before.
pub get-apply :
    (c : Command) (s : KvStore) (k : Text)
    → get (apply c s) k ≡ (if text_key.beq c.key k then left_by c else get s k)
unfolding get apply
get-apply c s k = lookup-write c.op c.key c.value k s.entries

-- The records of a list of commands.
abbrev pub encode_commands : List Command → Outcome (List Bytes)
encode_commands [] = ok []
encode_commands (c ∷ cs) = do r ← encode_command c; rs ← encode_commands cs; ok (r ∷ rs)

abbrev pub apply_every : List Command → KvStore → KvStore
apply_every [] s = s
apply_every (c ∷ cs) s = apply_every cs (apply c s)

replay_from-encode_commands :
    (cs : List Command) (rs : List Bytes) (s : KvStore)
    → encode_commands cs ≡ ok rs
    → replay_from s rs ≡ ok (apply_every cs s)
unfolding replay_from
replay_from-encode_commands [] rs s e = let same : rs ≡ [] = cc in rw same refl
replay_from-encode_commands (c ∷ cs) rs s e = >>=-ok_elim (encode_command c) _ e λ r hr e.
    >>=-ok_elim (encode_commands cs) _ e λ qs hqs e.
      let same : rs ≡ r ∷ qs = cc in
      rw (same, decode-encode_command c r hr) (replay_from-encode_commands cs qs (apply c s) hqs)

-- Commands that encode, replayed from their records, give the store that applies them in order to
-- an empty one.
pub replay-encode_commands :
    (cs : List Command) (rs : List Bytes)
    → encode_commands cs ≡ ok rs
    → replay rs ≡ ok (apply_every cs empty)
unfolding replay
replay-encode_commands cs rs e = replay_from-encode_commands cs rs empty e

replay_from-snoc :
    (s t : KvStore) (rs : List Bytes) (r : Bytes) (c : Command)
    → replay_from s rs ≡ ok t
    → decode_command r ≡ ok c
    → replay_from s (rs ++ r ∷ []) ≡ ok (apply c t)
unfolding replay_from
replay_from-snoc s t [] r c e d = let same : s ≡ t = cc in rw (d, same) refl
replay_from-snoc s t (q ∷ rs) r c e d =
    >>=-ok_elim (decode_command q) _ e λ b hb e'. rw hb (replay_from-snoc (apply b s) t rs r c e' d)

-- One more record is one more command applied.
pub replay-snoc :
    (t : KvStore) (rs : List Bytes) (r : Bytes) (c : Command)
    → replay rs ≡ ok t
    → decode_command r ≡ ok c
    → replay (rs ++ r ∷ []) ≡ ok (apply c t)
unfolding replay
replay-snoc t rs r c e d = replay_from-snoc empty t rs r c e d
