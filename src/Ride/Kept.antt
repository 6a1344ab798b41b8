-- ===== src/Ride/Kept.antt =====
-- Calls paired with a proof that they keep a property, and the parts that the handlers of the ride
-- service (api-server/internal/ride/service.go) share, each with its proof.
use rides_api.Base.{
  ℕ, ◌≡◌, refl, Bool, true, false, Option, some, none, arith, if◌then◌else◌, String, ap, ◌∙◌,
  update,
}
use rides_api.Base.Errors.{AppError}
use rides_api.Base.Action.{
  Keeps, Keeps-bind, Keeps-raise_if, Keeps-return_if, ignore, pure, raise_if, return_if, ◌>>=◌,
  ◌>>◌,
}
use rides_api.Ride.World.{Ride, World, Env, Call, Role, Redis}
use rides_api.Ride.Repo.{
  find_by_id, find_by_id_and_driver, cancel, append_event, find_driver_user_id_by_profile_id,
  increment_user_ban_count, ban_user_until, suspend_user_indefinitely,
}
use rides_api.Ride.Redis.{
  release_ride_redis_state, release_driver_redis_state, release_driver, driver_last_known_point,
}
use rides_api.Ride.Credit.{
  refund_to, refund_driver_credit, charge_driver_of, charge_for_agreed_fare,
}
use rides_api.Ride.Penalty.{penalise, record_cancel_penalty, suspend_or_ban}
use rides_api.Ride.Cancel.{verify_no_show}
use rides_api.Ride.Later.{Follows}
use rides_api.Ride.Keeping.{
  aside, cancel-Follows, append_event-Follows, find_by_id-Follows, find_by_id_and_driver-Follows,
}

-- A call with the proof that it keeps a property.
pub record Kept {F : Type 0} (P : World F → Type 0) (A : Type 0) : Type 0 where
  pub action : Call F A
  pub keeps : Keeps P action

module _ {F : Type 0} {P : World F → Type 0} where
  pub choice :
      {A : Type 0} (b : Bool) (m n : Call F A)
      → Keeps P m
      → Keeps P n
      → Keeps P (if b then m else n)
  choice true m n h g s k = h s k
  choice false m n h g s k = g s k

  abbrev pub kept : {A : Type 0} (m : Call F A) → Keeps P m → Kept P A
  kept m h = record { action = m; keeps = h }

  infixr 5 ◌then◌
  abbrev pub ◌then◌ : {A B : Type 0} → Kept P A → Kept P B → Kept P B
  a then b = record {
    action = a.action >> b.action;
    keeps = Keeps-bind P a.action (λ _. b.action) a.keeps (λ _. b.keeps);
  }

  abbrev pub bind : {A B : Type 0} → Kept P A → (A → Kept P B) → Kept P B
  bind a f = record {
    action = a.action >>= λ x. (f x).action;
    keeps = Keeps-bind P a.action (λ x. (f x).action) a.keeps (λ x. (f x).keeps);
  }

  abbrev pub either : {A : Type 0} → Bool → Kept P A → Kept P A → Kept P A
  either b x y = record {
    action = if b then x.action else y.action;
    keeps = choice b x.action y.action x.keeps y.keeps;
  }

  abbrev pub guard : Bool → AppError → Kept P (Unit {0})
  guard b e = record { action = raise_if b e; keeps = Keeps-raise_if P b e }

  abbrev pub unless : Bool → Kept P (Unit {0}) → Kept P (Unit {0})
  unless b x = record {
    action = return_if b tt x.action;
    keeps = Keeps-return_if P b tt x.action x.keeps;
  }

  abbrev pub done : {A : Type 0} → A → Kept P A
  done a = record { action = pure a; keeps = λ s k. k }

  abbrev pub ignored : {A : Type 0} → Kept P A → Kept P (Unit {0})
  ignored a = record { action = ignore a.action; keeps = a.keeps }

-- Two worlds with the same rides.
abbrev pub HasSameRides : {F : Type 0} → World F → World F → Type 0
HasSameRides v w = (v.db.rides ≡ w.db.rides) × (v.db.next_id ≡ w.db.next_id)

module _ {F : Type 0} (env : Env F) (id : ℕ) (r : Ride F) where
  -- A write to Redis and the rest of a call after it.
  pub after_redis :
      (b : Bool) (c : Redis F) (s : World F)
      → Follows id r s
      → Follows id r (if b then s else record s { redis = c })
  after_redis true c s k = k
  after_redis false c s k = aside env id r (record s { redis = c }) s refl refl k

  pub release_driver_redis_state-db :
      (p : ℕ) (v : String) (s : World F) → (release_driver_redis_state env p v s).1.db ≡ s.db
  unfolding release_driver_redis_state
  release_driver_redis_state-db p v s = ground arith

  release_driver-db :
      (o : Option ℕ) (v : String) (s : World F) → (release_driver env o v s).1.db ≡ s.db
  release_driver-db none v s = refl
  release_driver-db (some p) v s = release_driver_redis_state-db p v s

  pub release_ride-db :
      (j c : ℕ) (d : Option ℕ) (v : String) (s : World F)
      → (release_ride_redis_state env j c d v s).1.db ≡ s.db
  unfolding release_ride_redis_state
  release_ride-db j c d v s = release_driver-db d v _ ∙ ground arith

  record_cancel_penalty-same :
      (u : ℕ) (role : Role) (s : World F) → HasSameRides (record_cancel_penalty env u role s).1 s
  unfolding record_cancel_penalty penalise suspend_or_ban increment_user_ban_count ban_user_until
      suspend_user_indefinitely
  record_cancel_penalty-same u role s = ground arith

  refund_to-same : (j p : ℕ) (s : World F) → HasSameRides (refund_to env j p s).1 s
  unfolding refund_to find_driver_user_id_by_profile_id find_by_id
  refund_to-same j p s = ground arith

  charge_driver_of-same : (j : ℕ) (s : World F) → HasSameRides (charge_driver_of env j s).1 s
  unfolding charge_driver_of find_driver_user_id_by_profile_id find_by_id
  charge_driver_of-same j s = ground arith

  pub same-Keeps :
      {A : Type 0} (m : Call F A)
      → ((s : World F) → HasSameRides (m s).1 s)
      → Keeps (Follows id r) m
  same-Keeps m h s k = aside env id r (m s).1 s (h s).0 (h s).1 k

  pub release_ride-Follows :
      (j c : ℕ) (d : Option ℕ) (v : String)
      → Keeps (Follows id r) (release_ride_redis_state env j c d v)
  release_ride-Follows j c d v = same-Keeps (release_ride_redis_state env j c d v) (λ s.
      let same = release_ride-db j c d v s in (ap (λ b. b.rides) same, ap (λ b. b.next_id) same))

  pub record_cancel_penalty-Follows :
      (u : ℕ) (role : Role) → Keeps (Follows id r) (record_cancel_penalty env u role)
  record_cancel_penalty-Follows u role =
      same-Keeps (record_cancel_penalty env u role) (record_cancel_penalty-same u role)

  pub refund_driver_credit-Follows :
      (j : ℕ) (o : Option ℕ) → Keeps (Follows id r) (refund_driver_credit env j o)
  unfolding refund_driver_credit
  refund_driver_credit-Follows j none = λ s k. k
  refund_driver_credit-Follows j (some p) =
      choice {P = Follows id r} env.has_packages (refund_to env j p) (pure tt)
        (same-Keeps (refund_to env j p) (refund_to-same j p)) (λ s k. k)

  pub charge_for_agreed_fare-same :
      (j : ℕ) (s : World F) → HasSameRides (charge_for_agreed_fare env j s).1 s
  unfolding charge_for_agreed_fare
  charge_for_agreed_fare-same j s = ground (
    arith,
    charge_driver_of-same j (record s {
      redis = record s.redis { credit_charged = update s.redis.credit_charged j true };
    }),
  )

  pub charge_for_agreed_fare-Follows : (j : ℕ) → Keeps (Follows id r) (charge_for_agreed_fare env j)
  charge_for_agreed_fare-Follows j =
      same-Keeps (charge_for_agreed_fare env j) (charge_for_agreed_fare-same j)

  pub verify_no_show-same : (u : ℕ) (x : Ride F) (s : World F) → (verify_no_show env u x s).1 ≡ s
  unfolding driver_last_known_point
  verify_no_show-same u x s = ground arith

  abbrev pub releasing : ℕ → ℕ → Ride F → Kept (Follows id r) (Unit {0})
  releasing j c x =
      kept (release_ride_redis_state env j c x.driver_id x.transport_type)
        (release_ride-Follows j c x.driver_id x.transport_type)

  abbrev pub refunding : ℕ → Ride F → Kept (Follows id r) (Unit {0})
  refunding j x =
      kept (refund_driver_credit env j x.driver_id) (refund_driver_credit-Follows j x.driver_id)

  abbrev pub logging : ℕ → String → Role → ℕ → Kept (Follows id r) (Unit {0})
  logging j kind role actor =
      ignored (
        kept (append_event env j kind role actor) (append_event-Follows env id r j kind role actor))

  abbrev pub penalising : ℕ → Role → Kept (Follows id r) (Unit {0})
  penalising u role = kept (record_cancel_penalty env u role) (record_cancel_penalty-Follows u role)

  abbrev pub cancelling : ℕ → String → Role → Kept (Follows id r) Bool
  cancelling j why role = kept (cancel env j why role) (cancel-Follows env id r j why role)

  abbrev pub reading : ℕ → Kept (Follows id r) (Ride F)
  reading j = kept (find_by_id env j) (find_by_id-Follows env id r j)

  abbrev pub reading_for_driver : ℕ → ℕ → Kept (Follows id r) (Ride F)
  reading_for_driver j u =
      kept (find_by_id_and_driver env j u) (find_by_id_and_driver-Follows env id r j u)
