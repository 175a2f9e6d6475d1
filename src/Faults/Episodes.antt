-- ===== src/Faults/Episodes.antt =====
-- The episodes that a loop draws.
use ground_hog.Prelude.{
  ℕ, zero, suc, ◌+◌, ◌≤◌, ◌<◌, ◌≡◌, refl, sym, ◌∙◌, ap, List, [], ◌∷◌, Option, none, some, true,
  ltb, arith, Bool-cases, inl, inr,
}
use ground_hog.Prelude.Outcome.{ok}
use ground_hog.Prelude.Exec.{Exec, pure}
use ground_hog.Prelude.Steps.{bind-ok_elim}
use ground_hog.Types.{Tick}
use ground_hog.Faults.{Episode, FaultDraws, walk, and_then}

-- What the code relies on: a draw between two bounds that returns lies between them.
pub record DrawsInRange {R : Type 0} (draws : FaultDraws R) : Type 0 where
  pub between_in :
      (low high v : ℕ) (s t : R) → draws.between low high s ≡ (ok v, t) → (low ≤ v) × (v ≤ high)
  pub below_in : (n v : ℕ) (s t : R) → draws.below n s ≡ (ok v, t) → v < n

-- From a tick on, one after the other, each begun before the horizon and pausing for at least `pause`
-- before the next begins, with a duration in the range.
abbrev pub Spaced : {X : Type 0} → Tick → Tick × Tick → Tick → Tick → List (Episode X) → Type 0
Spaced pause durations horizon at [] = Unit
Spaced pause durations horizon at (e ∷ es) =
    (at ≤ e.at)
    × (e.at < horizon)
    × (durations.0 ≤ e.duration)
    × (e.duration ≤ durations.1)
    × Spaced pause durations horizon (e.at + e.duration + pause) es

Spaced-earlier :
    {X : Type 0} (pause : Tick) (durations : Tick × Tick) (horizon at later : Tick)
    (es : List (Episode X))
    → at ≤ later
    → Spaced pause durations horizon later es
    → Spaced pause durations horizon at es
Spaced-earlier pause durations horizon at later [] h k = tt
Spaced-earlier pause durations horizon at later (e ∷ es) h k =
    (omega (arith, k.0), k.1, k.2, k.3, k.4)

module _ {R X : Type 0} (draws : FaultDraws R) (law : DrawsInRange draws)
    (gap durations : Tick × Tick) (body : Exec R X) (horizon : Tick) where
  -- One round of the loop, which returned: its draws, and the rest of the loop.
  round_elim :
      {C : Type 0} (fuel : ℕ) (at : Tick) (s t : R) (o : Option (List (Episode X)))
      → ltb at horizon ≡ true
      → walk draws (suc fuel) gap durations body horizon at s ≡ (ok o, t)
      → ((e : Episode X) (pause : Tick) (rest : Option (List (Episode X))) (m u : R)
          → e.at ≡ at
          → (durations.0 ≤ e.duration) × (e.duration ≤ durations.1)
          → gap.0 ≤ pause
          → walk draws fuel gap durations body horizon (at + (e.duration + pause)) m ≡ (ok rest, u)
          → and_then e rest ≡ o
          → C)
      → C
  unfolding walk pure
  round_elim fuel at s t o before e k =
      bind-ok_elim (draws.between durations.0 durations.1) _ s (rw before at e) λ duration a one e1.
        bind-ok_elim body _ a e1 λ what b two e2.
          bind-ok_elim (draws.between gap.0 gap.1) _ b e2 λ pause c three e3.
            bind-ok_elim (walk draws fuel gap durations body horizon (at + (duration + pause))) _ c
              e3
              λ rest d four e4.
                let answer : ok
                      (and_then (record { at = at; duration = duration; what = what }) rest)
                    ≡ ok o =
                  ap (λ r. r.0) e4 in
                k (record { at = at; duration = duration; what = what }) pause rest c d refl
                  (law.between_in durations.0 durations.1 duration s a one)
                  (law.between_in gap.0 gap.1 pause b c three).0 four cc

  -- Where the draws lie in their ranges, the episodes that the loop returns follow one another without
  -- overlap: each begins before the horizon, lasts as long as the range of durations says, and ends at
  -- least the least gap before the next begins.
  pub walk-Spaced :
      (fuel : ℕ) (at : Tick) (s t : R) (es : List (Episode X))
      → walk draws fuel gap durations body horizon at s ≡ (ok (some es), t)
      → Spaced gap.0 durations horizon at es
  unfolding walk pure
  walk-Spaced zero at s t es e = let told : ok none ≡ ok (some es) = ap (λ r. r.0) e in cc
  walk-Spaced (suc fuel) at s t es e = elim (Bool-cases (ltb at horizon)) [
    | inr done ↦
        let told : ok (some []) ≡ ok (some es) = ap (λ r. r.0) (rw done at e) in
        let none_left : [] ≡ es = cc in rw (← none_left) tt
    | inl before ↦
        round_elim fuel at s t (some es) before e λ first pause rest m u here lasts waits more all.
          follow first pause rest here lasts waits before
            (λ rs some_rest.
              walk-Spaced fuel (at + (first.duration + pause)) m u rs (rw some_rest at more))
            all
  ]
    where
      follow :
          (first : Episode X) (pause : Tick) (rest : Option (List (Episode X)))
          → first.at ≡ at
          → (durations.0 ≤ first.duration) × (first.duration ≤ durations.1)
          → gap.0 ≤ pause
          → ltb at horizon ≡ true
          → ((rs : List (Episode X))
              → rest ≡ some rs
              → Spaced gap.0 durations horizon (at + (first.duration + pause)) rs)
          → and_then first rest ≡ some es
          → Spaced gap.0 durations horizon at es
      follow first pause none here lasts waits before more all = cc
      follow first pause (some rs) here lasts waits before more all =
          let same : first ∷ rs ≡ es = cc in
          rw (← same) (
            omega arith,
            ground arith,
            lasts.0,
            lasts.1,
            Spaced-earlier gap.0 durations horizon (first.at + first.duration + gap.0)
                (at + (first.duration + pause)) rs (omega arith) (more rs refl),
          )

  -- Where a gap and a duration together last at least a tick, the loop that returns has not used up
  -- its fuel, if it was given more fuel than there are ticks to the horizon.
  pub walk-ends :
      (fuel : ℕ) (at : Tick) (s t : R) (o : Option (List (Episode X)))
      → 1 ≤ durations.0 + gap.0
      → 1 ≤ fuel
      → horizon < at + fuel
      → walk draws fuel gap durations body horizon at s ≡ (ok o, t)
      → (es : List (Episode X)) × (o ≡ some es)
  unfolding walk pure
  walk-ends zero at s t o some_time some_fuel enough e = absurd (omega arith)
  walk-ends (suc fuel) at s t o some_time some_fuel enough e = elim (Bool-cases (ltb at horizon)) [
    | inr done ↦ let told : ok (some []) ≡ ok o = ap (λ r. r.0) (rw done at e) in ([], cc)
    | inl before ↦
        round_elim fuel at s t o before e λ first pause rest m u here lasts waits more all.
          let later =
            walk-ends fuel (at + (first.duration + pause)) m u rest some_time (ground arith)
              (omega (arith, lasts.0)) more in
          (first ∷ later.0, sym all ∙ ap (and_then first) later.1)
  ]
