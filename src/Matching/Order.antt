-- ===== src/Matching/Order.antt =====
-- The score of a candidate and the order of the candidates (api-server/internal/matching/engine.go).
use rides_api.Base.{ℕ, List, [], ◌∷◌, if◌then◌else◌, ltb}
use mathlib.Core.List.{reverse}
use rides_api.Float.{Float64}
use rides_api.Matching.Scene.{Candidate}

module _ {F : Type 0} (float : Float64 F) where
  -- `math.Min(float64(declines), 10) / 10.0`
  abbrev pub normalized_declines : ℕ → F
  normalized_declines n = float.div (float.of_int (if ltb n 10 then n else 10)) (float.of_int 10)

  -- The lower the better: the distance in radii, the declines of the day, and the rate of refusals.
  unfoldable pub score_of : F → ℕ → ℕ → F → F
  score_of distance_m radius_m declines acceptance_rate =
      let normalized_dist = float.div distance_m (float.of_int radius_m) in
      let acceptance_penalty =
        float.sub (float.of_int 1) (float.div acceptance_rate (float.of_int 100)) in
      float.add
        (float.add (float.mul normalized_dist (float.literal 6 10))
          (float.mul (normalized_declines declines) (float.literal 25 100)))
        (float.mul acceptance_penalty (float.literal 15 100))

  -- The inner loop of `sortCandidates`: the candidate moves to the left past those with a larger score.
  -- The sorted part is held with its last candidate first.
  unfoldable pub sift : Candidate F → List (Candidate F) → List (Candidate F)
  sift x [] = x ∷ []
  sift x (y ∷ ys) =
      let rest = sift x ys in if float.lt x.score y.score then y ∷ rest else x ∷ y ∷ ys

  unfoldable pub sort_onto : List (Candidate F) → List (Candidate F) → List (Candidate F)
  sort_onto [] done = done
  sort_onto (x ∷ xs) done = sort_onto xs (sift x done)

  -- `sortCandidates`
  unfoldable pub sort_candidates : List (Candidate F) → List (Candidate F)
  sort_candidates cs = reverse (sort_onto cs [])
