-- ===== src/Rng.antt =====
-- groundhog/sim/rng.py: the source of randomness. `random.Random` is a parameter, of which the code
-- uses `getrandbits`. The rejection loop of `below` has a number of tries as fuel; `none` says that
-- every try was rejected.
pub mod Bounds
pub mod Rejection
use ground_hog.Prelude.{
  ℕ, zero, suc, ◌+◌, ◌-◌, ◌/◌, ◌<◌, ◌≤◌, ◌≡◌, refl, ap, List, [], ◌∷◌, Option, none, some, Bool,
  true, false, ltb, ◌==◌, if◌then◌else◌, length, get_elem?, arith, Bool-cases, inl, inr,
}
use ground_hog.Prelude.Outcome.{Outcome, ok, raised, value_error}

-- `getrandbits(k)`
pub record Generator (G : Type 0) : Type 0 where
  pub getrandbits : ℕ → G → ℕ × G

pub record Rng (G : Type 0) : Type 0 where
  pub seed : ℕ
  pub calls : ℕ
  pub random : G

-- `int.bit_length`, with fuel: a number has at most as many bits as its value.
bit_length_within : ℕ → ℕ → ℕ
bit_length_within zero n = 0
bit_length_within (suc fuel) n =
    let rest = bit_length_within fuel (n / 2) in if n == 0 then 0 else 1 + rest

unfoldable pub bit_length : ℕ → ℕ
unfolding bit_length_within
bit_length n = bit_length_within n n

module _ {G : Type 0} (gen : Generator G) where
  -- The loop of `below`.
  unfoldable pub draw_below : ℕ → ℕ → ℕ → G → Option ℕ × G
  draw_below zero bits n g = (none, g)
  draw_below (suc tries) bits n g =
      let (candidate, g') = gen.getrandbits bits g in
      let rest = draw_below tries bits n g' in
      if ltb candidate n then (some candidate, g') else rest

  unfoldable pub below : ℕ → ℕ → Rng G → Outcome (Option ℕ) × Rng G
  unfolding draw_below bit_length
  below tries n r =
      if n == 0
      then (raised value_error, r)
      else if n == 1
      then (ok (some 0), record r { calls = r.calls + 1 })
      else (let (o, g) = draw_below tries (bit_length (n - 1)) n r.random in
          (ok o, record r { calls = r.calls + 1; random = g }))

  abbrev pub shift : ℕ → Outcome (Option ℕ) × Rng G → Outcome (Option ℕ) × Rng G
  shift low (ok (some k), r) = (ok (some (low + k)), r)
  shift low (ok none, r) = (ok none, r)
  shift low (raised x, r) = (raised x, r)

  unfoldable pub between : ℕ → ℕ → ℕ → Rng G → Outcome (Option ℕ) × Rng G
  unfolding below
  between tries low high r =
      if ltb high low then (raised value_error, r) else shift low (below tries (high - low + 1) r)

  abbrev is_below : ℕ → Outcome (Option ℕ) × Rng G → Outcome (Option Bool) × Rng G
  is_below percent (ok (some k), r) = (ok (some (ltb k percent)), r)
  is_below percent (ok none, r) = (ok none, r)
  is_below percent (raised x, r) = (raised x, r)

  unfoldable pub chance : ℕ → ℕ → Rng G → Outcome (Option Bool) × Rng G
  unfolding below
  chance tries percent r =
      if ltb 100 percent then (raised value_error, r) else is_below percent (below tries 100 r)

  abbrev element_of :
      {A : Type 0} → List A → Outcome (Option ℕ) × Rng G → Outcome (Option A) × Rng G
  element_of items (ok (some k), r) = (ok (get_elem? items k), r)
  element_of items (ok none, r) = (ok none, r)
  element_of items (raised x, r) = (raised x, r)

  unfoldable pub pick : {A : Type 0} → ℕ → List A → Rng G → Outcome (Option A) × Rng G
  unfolding below
  pick tries [] r = (raised value_error, r)
  pick tries (x ∷ xs) r = element_of (x ∷ xs) (below tries (length (x ∷ xs)) r)
