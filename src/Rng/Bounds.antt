-- ===== src/Rng/Bounds.antt =====
-- What the draws of the random source lie between.
use ground_hog.Prelude.{
  ℕ, zero, suc, ◌+◌, ◌-◌, ◌<◌, ◌≤◌, ◌≡◌, ap, Option, none, some, ltb, ◌==◌, arith, Bool-cases, inl,
  inr,
}
use ground_hog.Prelude.Outcome.{Outcome, ok, raised, value_error}
use ground_hog.Rng.{Generator, Rng, bit_length, draw_below, below, shift, between}

module _ {G : Type 0} (gen : Generator G) where
  draw_below-lt :
      (tries bits n : ℕ) (g g' : G) (k : ℕ) → draw_below gen tries bits n g ≡ (some k, g') → k < n
  unfolding draw_below
  draw_below-lt zero bits n g g' k e = cc
  draw_below-lt (suc tries) bits n g g' k e = elim (Bool-cases (ltb (gen.getrandbits bits g).0 n)) [
    | inl taken ↦
        let found : some (gen.getrandbits bits g).0 ≡ some k = ap (λ p. p.0) (rw taken at e) in
        ground (arith, found, taken)
    | inr rejected ↦ draw_below-lt tries bits n (gen.getrandbits bits g).1 g' k (rw rejected at e)
  ]

  -- A number that `below` returns is less than its bound.
  below-lt : (tries n : ℕ) (r r' : Rng G) (k : ℕ) → below gen tries n r ≡ (ok (some k), r') → k < n
  unfolding below
  below-lt tries n r r' k e = elim (Bool-cases (n == 0)) [
    | inl none_left ↦ let failed = rw none_left at e in cc
    | inr some_left ↦ elim (Bool-cases (n == 1)) [
      | inl one ↦
          let zero_drawn : ok (some 0) ≡ ok (some k) = ap (λ p. p.0) (rw (some_left, one) at e) in
          ground (arith, zero_drawn, one)
      | inr more ↦
          let drew : ok (draw_below gen tries (bit_length (n - 1)) n r.random).0 ≡ ok (some k) =
            ap (λ p. p.0) (rw (some_left, more) at e) in
          let found : (draw_below gen tries (bit_length (n - 1)) n r.random).0 ≡ some k = cc in
          draw_below-lt tries (bit_length (n - 1)) n r.random _ k
            (ap (λ o. (o, (draw_below gen tries (bit_length (n - 1)) n r.random).1)) found)
    ]
  ]

  shift-some :
      (low : ℕ) (o : Outcome (Option ℕ) × Rng G) (r' : Rng G) (v : ℕ)
      → shift gen low o ≡ (ok (some v), r')
      → (k : ℕ) × (o ≡ (ok (some k), r')) × (v ≡ low + k)
  shift-some low (ok (some k), r) r' v e =
      let found : ok (some (low + k)) ≡ ok (some v) = ap (λ p. p.0) e in
      let same : r ≡ r' = ap (λ p. p.1) e in
      (k, ap (λ r. (ok (some k), r)) same, ground (arith, found))
  shift-some low (ok none, r) r' v e = let failed : ok none ≡ ok (some v) = ap (λ p. p.0) e in cc
  shift-some low (raised x, r) r' v e = let failed : raised x ≡ ok (some v) = ap (λ p. p.0) e in cc

  -- A number that `between` returns is in the range, both ends included.
  pub between-InRange :
      (tries low high : ℕ) (r r' : Rng G) (v : ℕ)
      → between gen tries low high r ≡ (ok (some v), r')
      → (low ≤ v) × (v ≤ high)
  unfolding between
  between-InRange tries low high r r' v e = elim (Bool-cases (ltb high low)) [
    | inl reversed ↦
        let failed : raised value_error ≡ ok (some v) = ap (λ p. p.0) (rw reversed at e) in cc
    | inr inside ↦
        let (k, drew, is_sum) =
          shift-some low (below gen tries (high - low + 1) r) r' v (rw inside at e) in
        let small : k < high - low + 1 = below-lt tries (high - low + 1) r r' k drew in
        (omega (arith, is_sum), ground (arith, is_sum, small, inside))
  ]
