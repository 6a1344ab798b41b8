-- ===== src/Ride/Later.antt =====
-- How a ride's row may change (api-server/internal/ride): the relation of a row to what becomes of
-- it, and the statements of the repository that keep to it.
use rides_api.Base.{
  ℕ, ◌≤◌, ◌<◌, ◌≡◌, refl, Bool, true, false, not, ◌&&◌, ◌||◌, Option, some, none, arith,
  if◌then◌else◌, ◌==◌, ◌∙◌, sym,
}
use mathlib.Core.Path.{subst}
use rides_api.Base.Errors.{unavailable}
use rides_api.Base.Action.{Result, ok, err, Keeps}
use rides_api.Status.{Status, cancelled, can_transition, is_terminal, status_eq}
use rides_api.Ride.World.{Ride, World, Env, Query}
use rides_api.Ride.Repo.{is_unlocked, put_ride, touch, write_row, update_where}

-- One change of a status: the table of transitions, or a cancellation before the end.
abbrev pub can_move : Status → Status → Bool
can_move s t = can_transition s t || (not (is_terminal s) && status_eq t cancelled)

pub data Reach : Status → Status → Type 0 where
  stay : {s : Status} → Reach s s
  go : {s t u : Status} → Reach s t → can_move t u ≡ true → Reach s u

pub Reach-trans : {s t u : Status} → Reach s t → Reach t u → Reach s u
Reach-trans p stay = p
Reach-trans p (go q h) = go (Reach-trans p q) h

terminal_stuck : (s t : Status) → is_terminal s ≡ true → can_move s t ≡ false
unfolding can_transition
terminal_stuck s t h = ground arith

pub Reach-terminal : {s t : Status} → Reach s t → is_terminal s ≡ true → t ≡ s
Reach-terminal stay h = refl
Reach-terminal (go {s} {t} {u} p m) h =
    let same = Reach-terminal p h in ground (arith, terminal_stuck t u)

-- What a row keeps of an earlier state of it.
pub record Later {F : Type 0} (r r' : Ride F) : Type 0 where
  pub customer : r'.customer_id ≡ r.customer_id
  pub vehicle : r'.transport_type ≡ r.transport_type
  pub created : r'.created_at ≡ r.created_at
  pub version : r.ride_version ≤ r'.ride_version
  pub locked : is_unlocked r.fare_locked_at ≡ false → r'.fare_locked_at ≡ r.fare_locked_at
  pub fare : is_unlocked r.fare_locked_at ≡ false → r'.agreed_fare ≡ r.agreed_fare
  pub path : Reach r.status r'.status

-- The row of the ride `id` exists and is a later state of `r`; new rows get other ids.
pub record Follows {F : Type 0} (id : ℕ) (r : Ride F) (w : World F) : Type 0 where
  pub row : Ride F
  pub found : w.db.rides id ≡ some row
  pub old : id < w.db.next_id
  pub later : Later r row

module _ {F : Type 0} where
  pub Later-trans : {a b c : Ride F} → Later a b → Later b c → Later a c
  Later-trans {a} {b} {c} p q = record {
    customer = q.customer ∙ p.customer;
    vehicle = q.vehicle ∙ p.vehicle;
    created = q.created ∙ p.created;
    version = omega (arith, p.version, q.version);
    locked = λ h. let same = p.locked h in q.locked (ground arith) ∙ same;
    fare = λ h. let same = p.locked h in q.fare (ground arith) ∙ p.fare h;
    path = Reach-trans p.path q.path;
  }

  -- A change of neither the status nor the fare.
  pub quiet :
      (a b : Ride F)
      → b.customer_id ≡ a.customer_id
      → b.transport_type ≡ a.transport_type
      → b.created_at ≡ a.created_at
      → b.ride_version ≡ a.ride_version
      → b.fare_locked_at ≡ a.fare_locked_at
      → b.agreed_fare ≡ a.agreed_fare
      → Reach a.status b.status
      → Later a b
  quiet a b c v n m l f p = record {
    customer = c;
    vehicle = v;
    created = n;
    version = omega (arith, m);
    locked = λ h. l;
    fare = λ h. f;
    path = p;
  }

  pub Later-refl : (a : Ride F) → Later a a
  Later-refl a = quiet a a refl refl refl refl refl refl stay

  pub Later-touch : (now : ℕ) (a b : Ride F) → Later a b → Later a (touch now b)
  Later-touch now a b p = record {
    customer = p.customer;
    vehicle = p.vehicle;
    created = p.created;
    version = omega (arith, p.version);
    locked = p.locked;
    fare = p.fare;
    path = p.path;
  }

module _ {F : Type 0} (id : ℕ) (r : Ride F) where
  put_at :
      (j : ℕ) (a b : Ride F) (w : World F) (t : Bool)
      → (id == j) ≡ t
      → w.db.rides j ≡ some a
      → Later a b
      → Follows id r w
      → Follows id r (put_ride j b w)
  put_at j a b w true eq at p k =
      let same : k.row ≡ a = ground (arith, k.found) in
      record {
        row = b;
        found = ground (arith, eq);
        old = k.old;
        later = Later-trans k.later (subst (λ x. Later x b) (sym same) p);
      }
  put_at j a b w false eq at p k = record {
    row = k.row;
    found = ground (arith, eq, k.found);
    old = k.old;
    later = k.later;
  }

  Follows_if :
      (b : Bool) (x y : Bool) (v w : World F)
      → (b ≡ true → Follows id r v)
      → Follows id r w
      → Follows id r (if◌then◌else◌ {A = Bool × World F} b (x, v) (y, w)).1
  Follows_if true x y v w h k = h refl
  Follows_if false x y v w h k = k

  write_row-Follows :
      (j : ℕ) (p : Ride F → Bool) (f : Ride F → Ride F)
      → ((x : Ride F) → p x ≡ true → Later x (f x))
      → (o : Option (Ride F)) (w : World F) → w.db.rides j ≡ o
      → Follows id r w
      → Follows id r (write_row j p f o w).1
  write_row-Follows j p f l none w at k = k
  write_row-Follows j p f l (some a) w at k =
      Follows_if (p a) true false (put_ride j (touch w.now (f a)) w) w
        (λ h.
          put_at j a (touch w.now (f a)) w (id == j) refl at (Later-touch w.now a (f a) (l a h)) k)
        k

module _ {F : Type 0} (env : Env F) (id : ℕ) (r : Ride F) where
  pub update_where-Follows :
      (q : Query) (j : ℕ) (p : Ride F → Bool) (f : Ride F → Ride F)
      → ((x : Ride F) → p x ≡ true → Later x (f x))
      → Keeps (Follows id r) (update_where env q j p f)
  unfolding update_where
  update_where-Follows q j p f l w k =
      elim (env.fails q)
        as (λ b.
          Follows id r
            (if◌then◌else◌ {A = Result Bool × World F} b (err unavailable, w)
              (let (hit, w') = write_row j p f (w.db.rides j) w in (ok hit, w'))).1) [
                | true ↦ k
                | false ↦ write_row-Follows id r j p f l (w.db.rides j) w refl k
              ]
