-- ===== src/Bytes.antt =====
-- Python's `struct`: unsigned integers as big-endian byte strings of a fixed width, as kv.py,
-- codec.py and raft/persist.py pack and unpack them.
use ground_hog.Prelude.{
  ℕ, zero, suc, ◌+◌, ◌*◌, ◌/◌, ◌%◌, ◌^◌, ◌<◌, ◌≡◌, refl, List, [], ◌∷◌, ◌++◌, arith, length,
  length-append, All, All-append, ltb, if◌then◌else◌,
}
use ground_hog.Prelude.Outcome.{Outcome, ok, raised, struct_error}
use mathlib.Core.List.{foldl, foldl-append}
use native.Mathlib.Nat.{pow-suc}

-- A byte string.
abbrev pub Bytes : Type 0
Bytes = List ℕ

abbrev pub IsByte : ℕ → Type 0
IsByte b = b < 256

-- The `n` low bytes of `v`, highest first.
unfoldable pub be_bytes : ℕ → ℕ → Bytes
be_bytes zero v = []
be_bytes (suc n) v = be_bytes n (v / 256) ++ v % 256 ∷ []

abbrev shift_in : ℕ → ℕ → ℕ
shift_in acc b = acc * 256 + b

unfoldable pub be_value : Bytes → ℕ
be_value = foldl shift_in 0

-- One field of `Struct.pack`: a value that does not fit raises `struct.error`.
unfoldable pub pack_uint : ℕ → ℕ → Outcome Bytes
pack_uint n v = if ltb v (256 ^ n) then ok (be_bytes n v) else raised struct_error

pub length-be_bytes : (n v : ℕ) → length (be_bytes n v) ≡ n
unfolding be_bytes
length-be_bytes zero v = refl
length-be_bytes (suc n) v =
    omega (arith, length-append (be_bytes n (v / 256)) (v % 256 ∷ []), length-be_bytes n (v / 256))

pub be_bytes-IsByte : (n v : ℕ) → All IsByte (be_bytes n v)
unfolding be_bytes
be_bytes-IsByte zero v = tt
be_bytes-IsByte (suc n) v =
    All-append IsByte (be_bytes n (v / 256)) _ (be_bytes-IsByte n (v / 256)) (omega arith, tt)

pow_bound : (n v : ℕ) → v < 256 ^ suc n → v / 256 < 256 ^ n
pow_bound n v h = omega (arith, pow-suc 256 n)

-- Unpacking gives back what was packed.
pub be_value-be_bytes : (n v : ℕ) → v < 256 ^ n → be_value (be_bytes n v) ≡ v
unfolding be_bytes be_value
be_value-be_bytes zero v h = omega arith
be_value-be_bytes (suc n) v h =
    rw foldl-append (rw (be_value-be_bytes n (v / 256) (pow_bound n v h)) (omega arith))
