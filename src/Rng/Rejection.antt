-- ===== src/Rng/Rejection.antt =====
-- The rejection loop of `below` takes the first candidate that fits.
use ground_hog.Prelude.{
  ℕ, zero, suc, ◌+◌, ◌-◌, ◌<◌, ◌≤◌, ◌≡◌, refl, Option, some, true, false, ltb, ◌==◌, arith,
  Bool-cases, inl, inr,
}
use ground_hog.Prelude.Outcome.{ok}
use ground_hog.Rng.{Generator, Rng, bit_length, draw_below, below}

module _ {G : Type 0} (gen : Generator G) where
  -- The source after some draws of that many bits.
  abbrev pub after_draws : ℕ → ℕ → G → G
  after_draws zero bits g = g
  after_draws (suc j) bits g = after_draws j bits (gen.getrandbits bits g).1

  -- The candidate that the source gives after some draws.
  abbrev pub candidate_at : ℕ → ℕ → G → ℕ
  candidate_at j bits g = (gen.getrandbits bits (after_draws j bits g)).0

  -- The first candidate that is accepted, and what the loop did with it: every earlier candidate was
  -- too large, and the source stands right behind the draw.
  pub record FirstAccepted (bits n : ℕ) (g : G) (o : Option ℕ) (g' : G) : Type 0 where
    pub at : ℕ
    pub accepted : candidate_at at bits g < n
    pub too_large : (i : ℕ) → i < at → n ≤ candidate_at i bits g
    pub returned : o ≡ some (candidate_at at bits g)
    pub drawn : g' ≡ after_draws (suc at) bits g

  -- The next candidate is accepted.
  first_taken :
      (bits n : ℕ) (g : G)
      → candidate_at 0 bits g < n
      → FirstAccepted bits n g (some (candidate_at 0 bits g)) (gen.getrandbits bits g).1
  first_taken bits n g small = record {
    at = 0;
    accepted = small;
    too_large = λ i none_before. absurd (omega arith);
    returned = refl;
    drawn = refl;
  }

  -- One more candidate before, which was rejected.
  after_rejected :
      (bits n : ℕ) (g : G) (o : Option ℕ) (g' : G)
      → n ≤ candidate_at 0 bits g
      → FirstAccepted bits n (gen.getrandbits bits g).1 o g'
      → FirstAccepted bits n g o g'
  after_rejected bits n g o g' large r = record {
    at = suc r.at;
    accepted = r.accepted;
    too_large = earlier;
    returned = r.returned;
    drawn = r.drawn;
  }
    where
      earlier : (i : ℕ) → i < suc r.at → n ≤ candidate_at i bits g
      earlier zero lt = large
      earlier (suc i) lt = r.too_large i (omega arith)

  draw_below-first :
      (j tries bits n : ℕ) (g : G)
      → j < tries
      → candidate_at j bits g < n
      → FirstAccepted bits n g (draw_below gen tries bits n g).0 (draw_below gen tries bits n g).1
  unfolding draw_below
  draw_below-first j zero bits n g lt small = absurd (omega arith)
  draw_below-first zero (suc tries) bits n g lt small =
      let taken : ltb (gen.getrandbits bits g).0 n ≡ true = ground (arith, small) in
      rw taken (first_taken bits n g small)
  draw_below-first (suc j) (suc tries) bits n g lt small =
      elim (Bool-cases (ltb (gen.getrandbits bits g).0 n)) [
        | inl taken ↦ rw taken (first_taken bits n g (ground (arith, taken)))
        | inr rejected ↦ rw rejected (
            after_rejected bits n g _ _ (ground (arith, rejected))
              (draw_below-first j tries bits n (gen.getrandbits bits g).1 (omega arith) small))
      ]

  -- If one of the candidates that the source gives within the tries is less than a bound of at least
  -- 2, `below` returns the first such candidate and takes no further draw: all candidates before it
  -- were not below the bound, the call is counted once, and the source stands right behind the draw
  -- of the candidate.
  pub below-FirstAccepted :
      (j tries n : ℕ) (r : Rng G)
      → 2 ≤ n
      → j < tries
      → candidate_at j (bit_length (n - 1)) r.random < n
      → (o : Option ℕ) × (g : G) × (below gen tries n r
          ≡ (ok o, record r { calls = r.calls + 1; random = g }))
        × FirstAccepted (bit_length (n - 1)) n r.random o g
  unfolding below
  below-FirstAccepted j tries n r large lt small =
      let some_left : (n == 0) ≡ false = ground (arith, large) in
      let more : (n == 1) ≡ false = ground (arith, large) in
      (
        (draw_below gen tries (bit_length (n - 1)) n r.random).0,
        (draw_below gen tries (bit_length (n - 1)) n r.random).1,
        rw (some_left, more) refl,
        draw_below-first j tries (bit_length (n - 1)) n r.random lt small,
      )
