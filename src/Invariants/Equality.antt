-- ===== src/Invariants/Equality.antt =====
-- Equality of the frozen dataclasses that the checkers compare: `Command` (groundhog/kv.py) and
-- `LogEntry` (groundhog/log.py) are equal when all their fields are.
use ground_hog.Prelude.{◌≡◌, Bool, true, false, ◌&&◌, ◌==◌, arith, ◌↔◌}
use ground_hog.Prelude.Dict.{text_eq, text_eq_iff}
use ground_hog.Kv.{Op, put_op, delete_op, other_op, Command}
use ground_hog.Log.{LogEntry}

abbrev pub op_eq : Op → Op → Bool
op_eq put_op put_op = true
op_eq delete_op delete_op = true
op_eq (other_op s) (other_op t) = text_eq s t
op_eq _ _ = false

op_eq_iff : (a b : Op) → (op_eq a b ≡ true) ↔ (a ≡ b)
op_eq_iff put_op put_op = ground arith
op_eq_iff put_op delete_op = ground arith
op_eq_iff put_op (other_op t) = ground arith
op_eq_iff delete_op put_op = ground arith
op_eq_iff delete_op delete_op = ground arith
op_eq_iff delete_op (other_op t) = ground arith
op_eq_iff (other_op s) put_op = ground arith
op_eq_iff (other_op s) delete_op = ground arith
op_eq_iff (other_op s) (other_op t) = ground (arith, text_eq_iff s t)

abbrev pub command_eq : Command → Command → Bool
command_eq c d = op_eq c.op d.op && (text_eq c.key d.key && text_eq c.value d.value)

pub command_eq_iff : (c d : Command) → (command_eq c d ≡ true) ↔ (c ≡ d)
command_eq_iff c d =
    ground (arith, op_eq_iff c.op d.op, text_eq_iff c.key d.key, text_eq_iff c.value d.value)

abbrev pub entry_eq : LogEntry → LogEntry → Bool
entry_eq e f = e.term == f.term && (e.index == f.index && command_eq e.command f.command)

pub entry_eq_iff : (e f : LogEntry) → (entry_eq e f ≡ true) ↔ (e ≡ f)
entry_eq_iff e f = ground (arith, command_eq_iff e.command f.command)
