-- ===== src/Tests/Schedules.antt =====
-- Episodes drawn by a source that answers with the lower bound.
use ground_hog.Prelude.{
  ℕ, ◌≡◌, refl, ap, List, [], ◌∷◌, some, false, arith, leb, ltb, if◌then◌else◌,
}
use ground_hog.Prelude.Outcome.{ok, raised, value_error}
use ground_hog.Prelude.Exec.{Exec, ◌>>=◌, pure}
use ground_hog.Prelude.Sort.{sorted_items}
use ground_hog.Faults.{
  FaultSchedule, without, outages_kind, Episode, FaultDraws, Outage, crash, walk, split, choose,
  sorted_ids,
}
use ground_hog.Faults.Episodes.{DrawsInRange, Spaced, walk-Spaced, walk-ends}
use ground_hog.Faults.Sides.{Sides, split-Sides}

abbrev first_of_range : ℕ → ℕ → Exec (Unit {0}) ℕ
first_of_range low high r = (if leb low high then ok low else raised value_error, r)

abbrev zero_below : ℕ → Exec (Unit {0}) ℕ
zero_below n r = (if ltb 0 n then ok 0 else raised value_error, r)

abbrev lowest : FaultDraws (Unit {0})
lowest = record {
  below = zero_below;
  between = first_of_range;
  chance = λ percent r. (ok false, r);
}

lowest-InRange : DrawsInRange lowest
lowest-InRange = record {
  between_in = λ low high v s t e.
      let answer : (if leb low high then ok low else raised value_error) ≡ ok v = ap (λ r. r.0) e in
      (ground arith, ground arith);
  below_in = λ n v s t e.
      let answer : (if ltb 0 n then ok 0 else raised value_error) ≡ ok v = ap (λ r. r.0) e in
      ground arith;
}

abbrev body : Exec (Unit {0}) Outage
body = pure crash

abbrev episodes : List (Episode Outage)
episodes =
    record { at = 4; duration = 2; what = crash }
    ∷ record { at = 9; duration = 2; what = crash }
    ∷ []

walked : walk lowest 20 (3, 6) (2, 5) body 10 4 tt ≡ (ok (some episodes), tt)
unfolding walk pure ◌>>=◌
walked = refl

walk-Spaced_example : Spaced 3 (2, 5) 10 4 episodes
walk-Spaced_example =
    walk-Spaced lowest lowest-InRange (3, 6) (2, 5) body 10 20 4 tt tt episodes walked

walk-ends_example : (es : List (Episode Outage)) × (some episodes ≡ some es)
walk-ends_example =
    walk-ends lowest lowest-InRange (3, 6) (2, 5) body 10 20 4 tt tt (some episodes) (omega arith)
      (omega arith) (omega arith) walked

halves : split lowest (3 ∷ 1 ∷ 2 ∷ []) tt ≡ (ok (3 ∷ [], 1 ∷ 2 ∷ []), tt)
unfolding split choose sorted_ids sorted_items pure ◌>>=◌
halves = refl

split-Sides_example : Sides (3 ∷ 1 ∷ 2 ∷ []) (3 ∷ []) (1 ∷ 2 ∷ [])
split-Sides_example =
    split-Sides lowest (3 ∷ 1 ∷ 2 ∷ []) (3 ∷ []) (1 ∷ 2 ∷ []) tt tt lowest-InRange (omega arith)
      halves

-- One episode is cut out of the outages; a kind that is not known raises.
abbrev timeline : FaultSchedule
timeline = record {
  partitions = [];
  outages = record { at = 5; duration = 2; what = (1, crash) } ∷ [];
}

cuts_out : without 0 outages_kind timeline ≡ ok (record { partitions = []; outages = [] })
unfolding without
cuts_out = refl

unknown_kind : without 0 [] timeline ≡ raised value_error
unfolding without
unknown_kind = refl
