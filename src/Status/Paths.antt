-- ===== src/Status/Paths.antt =====
-- Runs of the ride state machine (api-server/internal/ride/statemachine.go).
use rides_api.Base.{ℕ, suc, ◌≤◌, ◌<◌, Bool, true, false, ◌≡◌, refl, ◌⊎◌, ◌||◌, inl, inr, arith}
use rides_api.Status.{
  Status, searching, matched, negotiating, confirmed, driver_en_route, driver_arrived, in_progress,
  completed, cancelled, can_transition, status_eq,
}

-- A sequence of allowed transitions.
pub data Run : Status → Status → Type 0 where
  here : {s : Status} → Run s s
  move : {s t u : Status} → can_transition s t ≡ true → Run t u → Run s u

-- Is the ride ever in this state on the way?
abbrev pub visits : Status → {s t : Status} → Run s t → Bool
visits x (here {s}) = status_eq x s
visits x (move {s} h r) = status_eq x s || visits x r

-- How many transitions a run makes.
abbrev pub steps : {s t : Status} → Run s t → ℕ
steps here = 0
steps (move h r) = suc (steps r)

-- How far a confirmed ride is from its last possible state.
abbrev left : Status → ℕ
left confirmed = 4
left driver_en_route = 3
left driver_arrived = 2
left in_progress = 1
left _ = 0

-- Has the fare been agreed?
abbrev pub is_agreed : Status → Bool
is_agreed confirmed = true
is_agreed driver_en_route = true
is_agreed driver_arrived = true
is_agreed in_progress = true
is_agreed completed = true
is_agreed _ = false

can_transition-left :
    (s t : Status)
    → is_agreed s ≡ true
    → can_transition s t ≡ true
    → (left t < left s) × ((is_agreed t ≡ true) ⊎ (t ≡ cancelled))
unfolding can_transition
can_transition-left s t h g = ground arith

cancelled_stuck : (t : Status) → can_transition cancelled t ≡ false
unfolding can_transition
cancelled_stuck searching = refl
cancelled_stuck _ = refl

cancelled_here : {s t : Status} (r : Run s t) → s ≡ cancelled → steps r ≡ 0
cancelled_here here h = refl
cancelled_here (move {s} {t} g r) h = ground (arith, cancelled_stuck t)

agreed_left : {s t : Status} (r : Run s t) → is_agreed s ≡ true → steps r ≤ left s
agreed_left here h = omega arith
agreed_left (move {s} {t} g r) h =
    let (less, way) = can_transition-left s t h g in
    elim way [
      | inl agreed ↦ omega (arith, agreed_left r agreed, less)
      | inr dead ↦ omega (arith, cancelled_here r dead, less)
    ]

left-le : (s : Status) → left s ≤ 4
left-le s = ground arith

-- Once the fare is agreed, a ride makes at most four more transitions: it cannot go back to the
-- search, whatever happens to it.
pub agreed_ends : {s t : Status} (r : Run s t) → is_agreed s ≡ true → steps r ≤ 4
agreed_ends {s} r h = omega (arith, agreed_left r h, left-le s)

-- The states that a ride is in until it has passed state `x` of the way to completion.
abbrev before : Status → Status → Bool
before confirmed searching = true
before confirmed matched = true
before confirmed negotiating = true
before driver_arrived driver_en_route = true
before driver_arrived confirmed = true
before driver_arrived searching = true
before driver_arrived matched = true
before driver_arrived negotiating = true
before in_progress driver_arrived = true
before in_progress driver_en_route = true
before in_progress confirmed = true
before in_progress searching = true
before in_progress matched = true
before in_progress negotiating = true
before _ _ = false

before-move :
    (x s t : Status)
    → before x s ≡ true
    → can_transition s t ≡ true
    → (before x t ≡ true) ⊎ ((status_eq x t ≡ true) ⊎ (t ≡ cancelled))
unfolding can_transition
before-move x s t h g = ground arith

no_way_back : {s : Status} (r : Run s completed) → s ≡ cancelled → ⊥
no_way_back here h = cc
no_way_back (move {s} {t} g r) h = ground (arith, cancelled_stuck t)

before_completed : (x : Status) → before x completed ≡ false
before_completed searching = refl
before_completed _ = refl

visits_start : (x : Status) {s t : Status} (r : Run s t) → status_eq x s ≡ true → visits x r ≡ true
visits_start x here h = h
visits_start x (move {s} g r) h = ground arith

passes : (x : Status) {s : Status} (r : Run s completed) → before x s ≡ true → visits x r ≡ true
passes x here h = ground (arith, before_completed x)
passes x (move {s} {t} g r) h = elim (before-move x s t h g) [
  | inl still ↦ ground (arith, passes x r still)
  | inr way ↦ elim way [
    | inl reached ↦ ground (arith, visits_start x r reached)
    | inr dead ↦ absurd (no_way_back r dead)
  ]
]

-- A ride that completes has been confirmed, has had its driver arrive and has been in progress.
pub completed_passes :
    (r : Run searching completed)
    → (visits confirmed r ≡ true) × (visits driver_arrived r ≡ true) × (visits in_progress r ≡ true)
completed_passes r =
    (passes confirmed r refl, passes driver_arrived r refl, passes in_progress r refl)
