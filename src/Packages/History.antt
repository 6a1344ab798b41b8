-- ===== src/Packages/History.antt =====
-- Whole histories of calls on the ledger (api-server/internal/packages/ledger.go), each call under an
-- outage of its own.
use rides_api.Base.{
  ℕ, update, ◌+◌, ◌*◌, sym, ◌≡◌, true, false, some, none, List, [], ◌∷◌, Option, Bool, String,
  if◌then◌else◌, arith,
}
use rides_api.Base.Int.{ℤ, pos, ltb_ℤ}
use rides_api.Base.Action.{
  Action, pure, return_if, gets, modify, ◌>>=◌, ◌>>◌, Keeps, Keeps-bind, Keeps-raise_if,
  Keeps-return_if,
}
use rides_api.Base.Errors.{unavailable}
use mathlib.Core.Path.{subst}
use rides_api.Packages.Types.{
  Credits, Entitlement, Outage, EntryType, Key, admin_grant, bonus_grant, purchase_grant, grant_key,
  bonus_key, trial_key, select_profile, select_type, claim_trial, select_promotion, Promotion,
}
use rides_api.Packages.Ledger.{grant, deduct_one, refund_one, resolve_profile, exec}
use rides_api.Packages.Service.{
  grant_purchase, admin_grant_credits, deduct_for_ride, refund_for_ride,
  grant_free_trial_if_eligible, grant_promotion, claim_and_grant, trial_for_type, trial_for_profile,
}
use rides_api.Packages.Sweep.{sweep_expired}

-- The calls that other components make, a purchase in two transactions of its own.
pub data Call : Type 0 where
  purchase : ℕ → Option ℕ → ℕ → ℕ → ℤ → ℤ → ℕ → Call
  top_up : ℕ → ℕ → ℕ → ℤ → ℤ → String → Call
  deduct : ℕ → String → ℕ → Call
  refund : ℕ → String → ℕ → Call
  trial : ℕ → String → Call
  sweep : (Entitlement → Outage) → Call

unfoldable pub call : Outage → Call → Credits → Credits
call out (purchase p v t id rides bonus expires) s =
    (grant_purchase out false p v t id rides bonus expires s).1
call out (top_up p t admin rides bonus why) s =
    (admin_grant_credits out false p t admin rides bonus why s).1
call out (deduct user code r) s = (deduct_for_ride out user code r s).1
call out (refund user code r) s = (refund_for_ride out user code r s).1
call out (trial user code) s = (grant_free_trial_if_eligible out user code s).1
call out (sweep outs) s = (sweep_expired out outs s).2

unfoldable pub run : List (Outage × Call) → Credits → Credits
run [] s = s
run ((out, c) ∷ cs) s = run cs (call out c s)

-- A property that the transactions of the ledger keep, and so every call.
pub record IsKept (out : Outage) (P : Credits → Type 0) : Type 0 where
  pub grants :
      (p : ℕ) (vehicle : Option ℕ) (t : ℕ) (kind : EntryType) (rides bonus : ℤ)
      (purchase expires admin : Option ℕ) (why : String) (key : Option Key)
      → Keeps P (grant out false p vehicle t kind rides bonus purchase expires admin why key)
  pub deducts : (p t r : ℕ) → Keeps P (deduct_one out p t r)
  pub refunds : (p t r : ℕ) → Keeps P (refund_one out p t r)
  pub claims : (f : ℕ → Bool) (s : Credits) → P s → P (record s { free_trial_used = f })
  pub sweeps : (outs : Entitlement → Outage) (s : Credits) → P s → P (sweep_expired out outs s).2

resolve_profile_same :
    (out : Outage) (u : ℕ) (code : String) (s : Credits) → (resolve_profile out u code s).1 ≡ s
unfolding resolve_profile
resolve_profile_same out u code s = ground arith

module _ (out : Outage) (P : Credits → Type 0) (k : IsKept out P) where
  or_grant-Keeps :
      (b : Bool) (m : Action Credits (Unit {0})) → Keeps P m → Keeps P (if b then m else pure tt)
  or_grant-Keeps true m h s p = h s p
  or_grant-Keeps false m h s p = p

  resolve_profile-Keeps : (u : ℕ) (code : String) → Keeps P (resolve_profile out u code)
  resolve_profile-Keeps u code s h = subst P (sym (resolve_profile_same out u code s)) h

  grant_promotion-Keeps : (p t : ℕ) (o : Option Promotion) → Keeps P (grant_promotion out p t o)
  unfolding grant_promotion
  grant_promotion-Keeps p t none s h = h
  grant_promotion-Keeps p t (some x) s h =
      k.grants p none t bonus_grant x.rides x.bonus_rides none
        (some (s.now + x.validity_days * 86400)) none "free trial" (some (trial_key p)) s h

  claim_and_grant-Keeps : (p t : ℕ) → Keeps P (claim_and_grant out p t)
  unfolding claim_and_grant
  claim_and_grant-Keeps p t =
      let promoted : Action Credits (Unit {0}) = (do
        x ← gets (λ s. s.promotion_of t)
        grant_promotion out p t x) in
      let claimed : Action Credits (Unit {0}) = (do
        modify (λ s. record s { free_trial_used = update s.free_trial_used p true })
        exec out select_promotion
        promoted) in
      Keeps-bind P (exec out claim_trial)
        (λ a. do used ← gets (λ s. s.free_trial_used p); return_if used tt claimed)
        (Keeps-raise_if P (out claim_trial) unavailable)
        (λ a s h.
          Keeps-return_if P (s.free_trial_used p) tt claimed
            (λ u g.
              Keeps-bind P (exec out select_promotion) (λ b. promoted)
                (Keeps-raise_if P (out select_promotion) unavailable)
                (λ b w i. grant_promotion-Keeps p t (w.promotion_of t) w i)
                (record u { free_trial_used = update u.free_trial_used p true })
                (k.claims (update u.free_trial_used p true) u g))
            s h)

  trial_for_type-Keeps : (p : ℕ) (o : Option ℕ) → Keeps P (trial_for_type out p o)
  unfolding trial_for_type
  trial_for_type-Keeps p none s h = h
  trial_for_type-Keeps p (some t) s h = claim_and_grant-Keeps p t s h

  trial_for_profile-Keeps : (code : String) (o : Option ℕ) → Keeps P (trial_for_profile out code o)
  unfolding trial_for_profile
  trial_for_profile-Keeps code none s h = h
  trial_for_profile-Keeps code (some p) s h =
      Keeps-bind P (exec out select_type)
        (λ a. do t ← gets (λ u. u.vehicle_type_of_code code); trial_for_type out p t)
        (Keeps-raise_if P (out select_type) unavailable)
        (λ a u g. trial_for_type-Keeps p (u.vehicle_type_of_code code) u g) s h

  call-Keeps : (c : Call) (s : Credits) → P s → P (call out c s)
  unfolding call grant_purchase admin_grant_credits deduct_for_ride refund_for_ride
      grant_free_trial_if_eligible
  call-Keeps (purchase p v t id rides bonus expires) s h =
      let paid : Action Credits (Unit {0}) =
        grant out false p v t purchase_grant rides (pos 0) (some id) (some expires) none ""
          (some (grant_key id)) in
      let free : Action Credits (Unit {0}) =
        grant out false p v t bonus_grant (pos 0) bonus (some id) (some expires) none ""
          (some (bonus_key id)) in
      Keeps-bind P (if ltb_ℤ (pos 0) rides then paid else pure tt)
        (λ a. if ltb_ℤ (pos 0) bonus then free else pure tt)
        (or_grant-Keeps (ltb_ℤ (pos 0) rides) paid (
          k.grants p v t purchase_grant rides (pos 0) (some id) (some expires) none ""
            (some (grant_key id))))
        (λ a. or_grant-Keeps (ltb_ℤ (pos 0) bonus) free (
          k.grants p v t bonus_grant (pos 0) bonus (some id) (some expires) none ""
            (some (bonus_key id))))
        s h
  call-Keeps (top_up p t admin rides bonus why) s h =
      k.grants p none t admin_grant rides bonus none none (some admin) why none s h
  call-Keeps (deduct user code r) s h =
      Keeps-bind P (resolve_profile out user code) (λ a. deduct_one out a.0 a.1 r)
        (resolve_profile-Keeps user code) (λ a. k.deducts a.0 a.1 r) s h
  call-Keeps (refund user code r) s h =
      Keeps-bind P (resolve_profile out user code) (λ a. refund_one out a.0 a.1 r)
        (resolve_profile-Keeps user code) (λ a. k.refunds a.0 a.1 r) s h
  call-Keeps (trial user code) s h =
      Keeps-bind P (exec out select_profile)
        (λ a. do p ← gets (λ s'. s'.profile_of_user user); trial_for_profile out code p)
        (Keeps-raise_if P (out select_profile) unavailable)
        (λ a s' h'. trial_for_profile-Keeps code (s'.profile_of_user user) s' h') s h
  call-Keeps (sweep outs) s h = k.sweeps outs s h

pub run-Keeps :
    (P : Credits → Type 0) (k : (out : Outage) → IsKept out P) (cs : List (Outage × Call))
    (s : Credits)
    → P s
    → P (run cs s)
unfolding run
run-Keeps P k [] s h = h
run-Keeps P k ((out, c) ∷ cs) s h = run-Keeps P k cs (call out c s) (call-Keeps out P (k out) c s h)
