-- ===== src/Matching/Rounds.antt =====
-- Invariants of a search for a driver (`runLoop`, api-server/internal/matching/engine.go).
use rides_api.Base.{
  ℕ, zero, suc, Bool, true, false, Option, none, some, List, [], ◌∷◌, if◌then◌else◌, String, ◌+◌,
  ◌≡◌, ◌<◌, arith,
}
use rides_api.Geo.{Point}
use rides_api.Ride.World.{Env}
use rides_api.Matching.Scene.{Candidate, Hunt, Setting, in_scene}
use rides_api.Matching.Loop.{
  Outcome, stopped, given_up, next, break_out, finish, Progress, try_candidate, try_all, go_on,
  quit, try_found, look, run_attempt, run_attempts, conclude, run_loop,
}

-- What holds while a search goes on, and what holds of its end.
unfoldable pub Holds :
    {F : Type 0} → (List ℕ → Hunt F → Type 0) → (Outcome → Hunt F → Type 0) → Progress F → Type 0
Holds I J (next, tried, h) = I tried h
Holds I J (break_out, tried, h) = I tried h
Holds I J (finish o, tried, h) = J o h

module _ {F : Type 0} (set : Setting F) (id : ℕ) (I : List ℕ → Hunt F → Type 0)
    (J : Outcome → Hunt F → Type 0)
    (turn : (a : ℕ) (c : Candidate F) (t : List ℕ) (h : Hunt F)
      → a < set.max_attempts
      → I t h
      → Holds I J (try_candidate set id a c t h))
    (wait : (a : ℕ) (t : List ℕ) (h : Hunt F) → I t h → I t (in_scene (set.between a) h))
    (stop : (t : List ℕ) (h : Hunt F) → I t h → J stopped h)
    (leave : (env : Env F) (why : String) (t : List ℕ) (h : Hunt F)
      → I t h
      → J given_up (quit set id env why h)) where
  go_on-Holds :
      (k : List ℕ → Hunt F → Progress F)
      → ((t : List ℕ) (h : Hunt F) → I t h → Holds I J (k t h))
      → (p : Progress F) → Holds I J p
      → Holds I J (go_on set id k p)
  unfolding Holds
  go_on-Holds k l (next, t, h) i = l t h i
  go_on-Holds k l (break_out, t, h) i = i
  go_on-Holds k l (finish o, t, h) j = j

  try_all-Holds :
      (a : ℕ) (cs : List (Candidate F)) (t : List ℕ) (h : Hunt F)
      → a < set.max_attempts
      → I t h
      → Holds I J (try_all set id a cs t h)
  unfolding try_all Holds
  try_all-Holds a [] t h early i = i
  try_all-Holds a (c ∷ cs) t h early i =
      go_on-Holds (λ t' h'. try_all set id a cs t' h')
        (λ t' h' i'. try_all-Holds a cs t' h' early i') (try_candidate set id a c t h)
        (turn a c t h early i)

  try_found-Holds :
      (a : ℕ) (t : List ℕ) (h : Hunt F) (o : Option (List (Candidate F)))
      → a < set.max_attempts
      → I t h
      → Holds I J (try_found set id a t h o)
  unfolding Holds
  try_found-Holds a t h none early i = i
  try_found-Holds a t h (some cs) early i = try_all-Holds a cs t h early i

  stop-Holds : (t : List ℕ) (h : Hunt F) → I t h → Holds I J (finish stopped, t, h)
  unfolding Holds
  stop-Holds t h i = stop t h i

  leave-Holds :
      (env : Env F) (why : String) (t : List ℕ) (h : Hunt F)
      → I t h
      → Holds I J (finish given_up, t, quit set id env why h)
  unfolding Holds
  leave-Holds env why t h i = leave env why t h i

  if-Holds :
      (b : Bool) (p q : Progress F) → Holds I J p → Holds I J q → Holds I J (if b then p else q)
  if-Holds true p q x y = x
  if-Holds false p q x y = y

  look-Holds :
      (pickup : Point F) (v : String) (a : ℕ) (t : List ℕ) (h : Hunt F)
      → a < set.max_attempts
      → I t h
      → Holds I J (look set id pickup v a t h)
  unfolding look
  look-Holds pickup v a t h early i =
      if-Holds _ _ _ (stop-Holds t h i) (try_found-Holds a t h _ early i)

  run_attempt-Holds :
      (pickup : Point F) (v : String) (a : ℕ) (t : List ℕ) (h : Hunt F)
      → a < set.max_attempts
      → I t h
      → Holds I J (run_attempt set id pickup v a t h)
  unfolding run_attempt
  run_attempt-Holds pickup v a t h early i =
      let waited = wait a t h i in
      if-Holds _ _ _
        (if-Holds _ _ _ (leave-Holds set.without_cancel _ t _ waited)
          (look-Holds pickup v a t _ early waited))
        (look-Holds pickup v a t h early i)

  run_attempts-Holds :
      (pickup : Point F) (v : String) (n a : ℕ) (t : List ℕ) (h : Hunt F)
      → n + a ≡ set.max_attempts
      → I t h
      → Holds I J (run_attempts set id pickup v n a t h)
  unfolding run_attempts Holds
  run_attempts-Holds pickup v zero a t h left i = i
  run_attempts-Holds pickup v (suc n) a t h left i =
      go_on-Holds (λ t' h'. run_attempts set id pickup v n (suc a) t' h')
        (λ t' h' i'. run_attempts-Holds pickup v n (suc a) t' h' (omega (arith, left)) i')
        (run_attempt set id pickup v a t h)
        (run_attempt-Holds pickup v a t h (omega (arith, left)) i)

  conclude-Holds : (p : Progress F) → Holds I J p → let (o, h) = conclude set id p in J o h
  unfolding Holds
  conclude-Holds (next, t, h) i = leave set.ending _ t h i
  conclude-Holds (break_out, t, h) i = leave set.ending _ t h i
  conclude-Holds (finish o, t, h) j = j

  -- What holds before the first attempt and is kept by each candidate, each wait and each end, holds at
  -- the end.
  pub run_loop-Holds :
      (pickup : Point F) (v : String) (h : Hunt F)
      → I [] h
      → let (o, h') = run_loop set id pickup v h in J o h'
  unfolding run_loop Holds
  run_loop-Holds pickup v h i =
      conclude-Holds (run_attempts set id pickup v set.max_attempts 0 [] h)
        (run_attempts-Holds pickup v set.max_attempts 0 [] h (omega arith) i)
