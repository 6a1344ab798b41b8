-- ===== src/Auth/Lock.antt =====
-- The counter of wrong codes and the life of a code (api-server/internal/auth/service.go).
use rides_api.Base.{ℕ, ◌≡◌, refl, true, false, Option, some, none, arith, ◌∙◌, ap, String, leb, ◌+◌}
use rides_api.Base.Action.{err}
use rides_api.Auth.World.{
  Purpose, registration, login_purpose, phone_change, admin_driver_verify, Accounts, Env,
  otp_locked,
}
use rides_api.Auth.Repo.{create_otp}
use rides_api.Auth.Otp.{
  max_otp_attempts, check_found, check_code, check_with_pindo, check_otp, initiate_otp,
  initiate_with_pindo, stash,
}
use rides_api.Auth.Service.{verify_otp}

module _ (env : Env) where
  stash-attempts :
      (phone : ℕ) (p : Purpose) (name email : Option String) (s : Accounts)
      → (stash env phone p name email s).1.attempts ≡ s.attempts
  stash-attempts phone registration (some n) email s = ground arith
  stash-attempts phone registration none email s = refl
  stash-attempts phone login_purpose name email s = refl
  stash-attempts phone phone_change name email s = refl
  stash-attempts phone admin_driver_verify name email s = refl

  pindo-attempts :
      (phone : ℕ) (p : Purpose) (name email : Option String) (s : Accounts)
      → (initiate_with_pindo env phone p name email s).1.attempts ≡ s.attempts
  unfolding initiate_with_pindo
  pindo-attempts phone p name email s = grind (arith, stash-attempts)

  initiate-attempts :
      (phone : ℕ) (p : Purpose) (hash : ℕ) (name email : Option String) (s : Accounts)
      → (initiate_otp env phone p hash name email s).1.attempts ≡ s.attempts
  unfolding initiate_otp create_otp
  initiate-attempts phone p hash name email s =
      let sent = pindo-attempts phone p name email s in
      let kept =
        stash-attempts phone p name email (create_otp env phone hash p (s.now + 600) s).1 in
      ground arith

  pub locked_refuses :
      (phone : ℕ) (p : Purpose) (code device : ℕ) (s : Accounts)
      → env.redis_down ≡ false
      → leb max_otp_attempts (s.attempts phone p) ≡ true
      → verify_otp env phone code p device s ≡ (err otp_locked, s)
  unfolding verify_otp check_otp check_with_pindo check_code check_found
  locked_refuses phone p code device s up h = ground arith

-- While Redis answers, a number and a purpose with five wrong codes or more stay locked after a new code
-- is asked for, whatever the request gives: the next check of any code is refused as locked and changes
-- nothing.
pub new_code_stays_locked :
    (env : Env) (phone : ℕ) (p : Purpose) (hash code device : ℕ) (name email : Option String)
    (s : Accounts)
    → env.redis_down ≡ false
    → leb max_otp_attempts (s.attempts phone p) ≡ true
    → let s' = (initiate_otp env phone p hash name email s).1 in
      verify_otp env phone code p device s' ≡ (err otp_locked, s')
new_code_stays_locked env phone p hash code device name email s up h =
    let s' = (initiate_otp env phone p hash name email s).1 in
    locked_refuses env phone p code device s' up (
      ap (λ f. leb max_otp_attempts (f phone p)) (initiate-attempts env phone p hash name email s)
      ∙ h)
