-- ===== src/Matching/Once.antt =====
-- Whom a search asks, and whom it takes (`runLoop`, api-server/internal/matching/engine.go).
use rides_api.Base.{
  ℕ, ◌≡◌, refl, Bool, true, false, not, ◌||◌, ◌==◌, Option, none, some, List, [], ◌∷◌, member,
  all_different, if◌then◌else◌, String, arith, ◌<◌,
}
use mathlib.Core.Path.{subst}
use rides_api.Geo.{Point}
use rides_api.Matching.Scene.{Candidate, Hunt, Setting}
use rides_api.Matching.Offer.{await, send_offer, end_offer, offer_to_driver, on_declined}
use rides_api.Matching.Loop.{
  Outcome, found, stopped, given_up, try_candidate, after_offer, run_loop, next, Progress, finish,
  break_out,
}
use rides_api.Matching.Rounds.{Holds, run_loop-Holds}

-- The drivers asked are different, and each is among those tried.
record IsAsking {F : Type 0} (tried : List ℕ) (h : Hunt F) : Type 0 where
  distinct : all_different h.sent ≡ true
  known : (q : ℕ) → member q h.sent ≡ true → member q tried ≡ true

-- The turn of a search that found the driver `p` and left the hunt `h`: it came at one of the attempts,
-- the driver was connected then and had not been asked before, and their first signal was yes.
pub record FoundAt {F : Type 0} (set : Setting F) (id p : ℕ) (h : Hunt F) : Type 0 where
  pub attempt : ℕ
  pub candidate : Candidate F
  pub tried : List ℕ
  pub left : List ℕ
  pub before : Hunt F
  pub in_time : attempt < set.max_attempts
  pub of_driver : candidate.profile_id ≡ p
  pub connected : set.is_driver_connected attempt p ≡ true
  pub new : member p before.sent ≡ false
  pub agreed : await p (set.signals p) ≡ some true
  pub turn : try_candidate set id attempt candidate tried before ≡ (finish (found p), left, h)
  pub asked : h.sent ≡ p ∷ before.sent

abbrev pub Agreed : {F : Type 0} → Setting F → ℕ → Outcome → Hunt F → Type 0
Agreed set id (found p) h = FoundAt set id p h
Agreed set id stopped h = Unit
Agreed set id given_up h = Unit

module _ {F : Type 0} (set : Setting F) (id : ℕ) where
  -- The same of one turn, of the candidate `c` at the attempt `a`.
  abbrev AgreedAt : ℕ → Candidate F → Hunt F → Outcome → Hunt F → Type 0
  AgreedAt a c before (found p) h =
      (c.profile_id ≡ p)
      × (set.is_driver_connected a p ≡ true)
      × (member p before.sent ≡ false)
      × (await p (set.signals p) ≡ some true)
      × (h.sent ≡ p ∷ before.sent)
  AgreedAt a c before stopped h = Unit
  AgreedAt a c before given_up h = Unit

  abbrev EndsAt : ℕ → Candidate F → Hunt F → Outcome → Hunt F → Type 0
  EndsAt a c before o h = (all_different h.sent ≡ true) × AgreedAt a c before o h

  abbrev Ends : Outcome → Hunt F → Type 0
  Ends o h = (all_different h.sent ≡ true) × Agreed set id o h

  member-skip : (q p : ℕ) (t : List ℕ) → member q t ≡ true → member q (p ∷ t) ≡ true
  member-skip q p t h = ground arith

  not_asked :
      (p : ℕ) (t : List ℕ) (h : Hunt F)
      → member p t ≡ false
      → IsAsking t h
      → (b : Bool) → member p h.sent ≡ b
      → b ≡ false
  not_asked p t h new k true eq = let old = k.known p eq in ground arith
  not_asked p t h new k false eq = refl

  ask :
      (p : ℕ) (t : List ℕ) (h h' : Hunt F)
      → member p t ≡ false
      → h'.sent ≡ p ∷ h.sent
      → IsAsking t h
      → IsAsking (p ∷ t) h'
  ask p t h h' new eq k = record {
    distinct =
        rw eq
          (let fresh = not_asked p t h new k (member p h.sent) refl in ground (arith, k.distinct));
    known = λ q m. ask_known q (rw eq at m);
  }
    where
      ask_known : (q : ℕ) → member q (p ∷ h.sent) ≡ true → member q (p ∷ t) ≡ true
      ask_known q m =
          elim (q == p) as (λ b. (b || member q h.sent) ≡ true → (b || member q t) ≡ true) [
            | true ↦ λ e. refl
            | false ↦ λ e. k.known q e
          ]
            m

  send_offer-sent :
      (c : Candidate F) (h : Hunt F) → (send_offer set id c h).sent ≡ c.profile_id ∷ h.sent
  unfolding send_offer
  send_offer-sent c h = refl

  after_offer-Holds :
      (a : ℕ) (c : Candidate F) (t : List ℕ) (h : Hunt F)
      → set.is_driver_connected a c.profile_id ≡ true
      → member c.profile_id t ≡ false
      → IsAsking t h
      → (o : Option Bool) → await c.profile_id (set.signals c.profile_id) ≡ o
      → Holds IsAsking (EndsAt a c h) (
          after_offer set id c
            (c.profile_id ∷ t)
            (let (b, h') = end_offer set id c o (send_offer set id c h) in (some b, h')))
  unfolding Holds end_offer on_declined send_offer
  after_offer-Holds a c t h on new k none eq = ask c.profile_id t h _ new refl k
  after_offer-Holds a c t h on new k (some false) eq = ask c.profile_id t h _ new refl k
  after_offer-Holds a c t h on new k (some true) eq =
      let k' = ask c.profile_id t h (send_offer set id c h) new refl k in
      (
        k'.distinct,
        (refl, on, not_asked c.profile_id t h new k (member c.profile_id h.sent) refl, eq, refl),
      )

  skip : (p : ℕ) (t : List ℕ) (h : Hunt F) → IsAsking t h → IsAsking (p ∷ t) h
  skip p t h k = record { distinct = k.distinct; known = λ q m. member-skip q p t (k.known q m) }

  offer-Holds :
      (a : ℕ) (c : Candidate F) (t : List ℕ) (h : Hunt F)
      → set.is_driver_connected a c.profile_id ≡ true
      → member c.profile_id t ≡ false
      → IsAsking t h
      → Holds IsAsking
          (EndsAt a c h)
          (after_offer set id c (c.profile_id ∷ t) (offer_to_driver set id c h))
  unfolding offer_to_driver Holds
  offer-Holds a c t h on new k =
      let asked =
        after_offer-Holds a c t h on new k (await c.profile_id (set.signals c.profile_id)) refl in
      let passed = skip c.profile_id t h k in ground (arith, asked, passed)

  try_candidate-Holds :
      (a : ℕ) (c : Candidate F) (t : List ℕ) (h : Hunt F)
      → IsAsking t h
      → Holds IsAsking (EndsAt a c h) (try_candidate set id a c t h)
  unfolding try_candidate Holds
  try_candidate-Holds a c t h k =
      fresh (member c.profile_id t) refl (set.is_driver_connected a c.profile_id) refl
    where
      kept : Holds IsAsking (EndsAt a c h) (next, t, h)
      kept = k

      fresh :
          (b : Bool)
          → member c.profile_id t ≡ b
          → (on : Bool) → set.is_driver_connected a c.profile_id ≡ on
          → Holds IsAsking (EndsAt a c h) (
              if◌then◌else◌ {A = Progress F} b
                (next, t, h)
                (if◌then◌else◌ {A = Progress F}
                  (not on)
                  (next, t, h)
                  (after_offer set id c (c.profile_id ∷ t) (offer_to_driver set id c h))))
      fresh true new on eq = kept
      fresh false new false eq = kept
      fresh false new true eq = offer-Holds a c t h eq new k

  Holds-end :
      {J J' : Outcome → Hunt F → Type 0} (p : Progress F)
      → ((o : Outcome) (rest : List ℕ) (h : Hunt F) → p ≡ (finish o, rest, h) → J o h → J' o h)
      → Holds IsAsking J p
      → Holds IsAsking J' p
  unfolding Holds
  Holds-end (next, t, h) f k = k
  Holds-end (break_out, t, h) f k = k
  Holds-end (finish o, t, h) f k = f o t h refl k

  turn-Agreed :
      (a : ℕ) (c : Candidate F) (t : List ℕ) (h : Hunt F)
      → a < set.max_attempts
      → (o : Outcome) (rest : List ℕ) (h' : Hunt F)
      → try_candidate set id a c t h ≡ (finish o, rest, h')
      → AgreedAt a c h o h'
      → Agreed set id o h'
  turn-Agreed a c t h early (found p) rest h' eq (same, on, new, said, asked) = record {
    attempt = a;
    candidate = c;
    tried = t;
    left = rest;
    before = h;
    in_time = early;
    of_driver = same;
    connected = on;
    new = new;
    agreed = said;
    turn = eq;
    asked = asked;
  }
  turn-Agreed a c t h early stopped rest h' eq k = tt
  turn-Agreed a c t h early given_up rest h' eq k = tt

  turn-Ends :
      (a : ℕ) (c : Candidate F) (t : List ℕ) (h : Hunt F)
      → a < set.max_attempts
      → IsAsking t h
      → Holds IsAsking Ends (try_candidate set id a c t h)
  turn-Ends a c t h early k =
      Holds-end (try_candidate set id a c t h)
        (λ o rest h' eq e. (e.0, turn-Agreed a c t h early o rest h' eq e.1))
        (try_candidate-Holds a c t h k)

  run_loop-Ends :
      (pickup : Point F) (v : String) (h : Hunt F)
      → h.sent ≡ []
      → let (o, h') = run_loop set id pickup v h in Ends o h'
  run_loop-Ends pickup v h new =
      run_loop-Holds set id IsAsking Ends turn-Ends (λ a t h' k. again t h' _ refl k)
        (λ t h' k. (k.distinct, tt)) (λ env why t h' k. (k.distinct, tt)) pickup v h
        (again [] (record h { sent = [] }) h new (record { distinct = refl; known = λ q m. m }))
    where
      again : (t : List ℕ) (x y : Hunt F) → y.sent ≡ x.sent → IsAsking t x → IsAsking t y
      again t x y eq k = record {
        distinct = rw eq k.distinct;
        known = λ q m. k.known q (rw eq at m);
      }

  -- A search that has asked no driver yet asks no driver twice, whatever others do in the meantime.
  pub asks_once :
      (pickup : Point F) (v : String) (h : Hunt F)
      → h.sent ≡ []
      → all_different (run_loop set id pickup v h).1.sent ≡ true
  asks_once pickup v h new = (run_loop-Ends pickup v h new).0

  -- The driver that a search finds is one whom it asked in its last turn, at one of its attempts and for
  -- the first time; they were connected at that attempt and their first signal for the ride was yes, if
  -- the search had asked nobody before it began. Signals of others do not count.
  pub found_agreed :
      (pickup : Point F) (v : String) (h : Hunt F) (p : ℕ)
      → h.sent ≡ []
      → (run_loop set id pickup v h).0 ≡ found p
      → FoundAt set id p (run_loop set id pickup v h).1
  found_agreed pickup v h p new eq =
      subst (λ o. Agreed set id o (run_loop set id pickup v h).1) eq
        (run_loop-Ends pickup v h new).1
