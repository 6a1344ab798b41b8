-- ===== src/Matching/Ranking.antt =====
-- The order of the candidates (`sortCandidates`, api-server/internal/matching/engine.go).
use rides_api.Base.{◌≡◌, refl, true, false, List, [], ◌∷◌, ◌++◌, if◌then◌else◌}
use mathlib.Core.List.{Perm, IsChain, reverse_perm, append-nil, perm_middle}
use mathlib.Core.List.Perm
use mathlib.Mathlib.Data.List.Chain.{IsChain-reverse}
use rides_api.Float.{Float64}
use rides_api.Matching.Scene.{Candidate}
use rides_api.Matching.Order.{sift, sort_onto, sort_candidates}

-- The score of the second candidate is not below the score of the first.
abbrev pub IsInOrder : {F : Type 0} → Float64 F → Candidate F → Candidate F → Type 0
IsInOrder float a b = float.lt b.score a.score ≡ false

module _ {F : Type 0} (float : Float64 F) where
  sift-perm : (x : Candidate F) (l : List (Candidate F)) → Perm (sift float x l) (x ∷ l)
  unfolding sift
  sift-perm x [] = Perm.rfl
  sift-perm x (y ∷ ys) =
      elim (float.lt x.score y.score)
        as (λ b.
          Perm (if◌then◌else◌ {A = List (Candidate F)} b (y ∷ sift float x ys) (x ∷ y ∷ ys))
            (x ∷ y ∷ ys)) [
              | true ↦ Perm.trans (Perm.cons y (sift-perm x ys)) (Perm.swap x y ys)
              | false ↦ Perm.rfl
            ]

  sort_onto-perm : (xs done : List (Candidate F)) → Perm (sort_onto float xs done) (xs ++ done)
  unfolding sort_onto
  sort_onto-perm [] done = Perm.rfl
  sort_onto-perm (x ∷ xs) done =
      Perm.trans (sort_onto-perm xs (sift float x done))
        (Perm.trans (Perm.append_left xs (sift-perm x done)) (perm_middle xs done))

  -- The order of the sorted part, whose last candidate comes first.
  abbrev InBackOrder : Candidate F → Candidate F → Type 0
  InBackOrder a b = IsInOrder float b a

  module _ (asym : (a b : F) → float.lt a b ≡ true → float.lt b a ≡ false) where
    sift-under :
        (x z : Candidate F) (l : List (Candidate F))
        → InBackOrder z x
        → IsChain InBackOrder (z ∷ l)
        → IsChain InBackOrder (z ∷ sift float x l)
    unfolding sift
    sift-under x z [] h k = IsChain.cons-cons {a = z} {b = x} h (IsChain.singleton x)
    sift-under x z (y ∷ ys) h (IsChain.cons-cons g k) =
        elim (float.lt x.score y.score)
            as (λ b.
              float.lt x.score y.score ≡ b
              → IsChain InBackOrder (
                  z
                  ∷ if◌then◌else◌ {A = List (Candidate F)} b (y ∷ sift float x ys) (x ∷ y ∷ ys))) [
                    | true ↦ λ lt.
                        IsChain.cons-cons {a = z} {b = y} g
                          (sift-under x y ys (asym x.score y.score lt) k)
                    | false ↦ λ le.
                        IsChain.cons-cons {a = z} {b = x} h (IsChain.cons-cons {a = x} {b = y} le k)
                  ]
          refl

    sift-IsChain :
        (x : Candidate F) (l : List (Candidate F))
        → IsChain InBackOrder l
        → IsChain InBackOrder (sift float x l)
    unfolding sift
    sift-IsChain x [] k = IsChain.singleton x
    sift-IsChain x (y ∷ ys) k =
        elim (float.lt x.score y.score)
            as (λ b.
              float.lt x.score y.score ≡ b
              → IsChain InBackOrder
                  (if◌then◌else◌ {A = List (Candidate F)} b (y ∷ sift float x ys) (x ∷ y ∷ ys))) [
                    | true ↦ λ lt. sift-under x y ys (asym x.score y.score lt) k
                    | false ↦ λ le. IsChain.cons-cons {a = x} {b = y} le k
                  ]
          refl

    sort_onto-IsChain :
        (xs done : List (Candidate F))
        → IsChain InBackOrder done
        → IsChain InBackOrder (sort_onto float xs done)
    unfolding sort_onto
    sort_onto-IsChain [] done k = k
    sort_onto-IsChain (x ∷ xs) done k =
        sort_onto-IsChain xs (sift float x done) (sift-IsChain x done k)

    -- Where no two floats are below each other, the candidates are put in an order where no score is
    -- below the score before it, and none is lost or made up.
    pub sort_candidates_orders :
        (cs : List (Candidate F))
        → IsChain (IsInOrder float) (sort_candidates float cs) × Perm (sort_candidates float cs) cs
    unfolding sort_candidates
    sort_candidates_orders cs = (
      IsChain-reverse.1 (sort_onto-IsChain cs [] IsChain.nil),
      Perm.trans (reverse_perm (sort_onto float cs [])) (rw append-nil at (sort_onto-perm cs [])),
    )
