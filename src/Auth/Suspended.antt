-- ===== src/Auth/Suspended.antt =====
-- What a suspended account is refused (api-server/internal/auth/service.go).
use rides_api.Base.{ℕ, ◌≡◌, refl, true, false, Option, some, none, arith, ◌∙◌, ap}
use rides_api.Base.Action.{is_ok, ok, err, Result}
use rides_api.Auth.World.{User, Claims, Accounts, Env, RoleState, Purpose, OtpRecord}
use rides_api.Auth.Repo.{
  user_of_phone, user_of_id, find_user_by_phone, find_user_by_id, reconcile_role_state,
  update_user_device_id, mark_otp_used, find_latest_otp,
}
use rides_api.Auth.Otp.{
  match_code, check_found, check_code, check_with_pindo, verify_with_pindo, check_otp,
}
use rides_api.Auth.Tokens.{
  is_still_on, lift_expired_suspension, rotate, refresh_session, refresh_tokens, rotate_as,
}
use rides_api.Auth.Service.{admit, login, admit_as, with_role, enter, upsert_user, verify_otp}

module _ (env : Env) where
  stays_suspended :
      (u : User) (s : Accounts)
      → u.is_suspended ≡ true
      → is_still_on u.suspension_until s.now ≡ true
      → lift_expired_suspension env u s ≡ (ok u, s)
  unfolding lift_expired_suspension
  stays_suspended u s h k = ground arith

  rotate_refuses :
      (user jti : ℕ) (u : User) (s : Accounts)
      → u.is_suspended ≡ true
      → is_still_on u.suspension_until s.now ≡ true
      → is_ok (rotate env user jti u s).0 ≡ false
  unfolding rotate rotate_as
  rotate_refuses user jti u s h k = let same = stays_suspended u s h k in ground arith

  session_refuses :
      (user : ℕ) (jti : Option ℕ) (u : User) (s : Accounts)
      → user_of_id user s.users ≡ some u
      → u.is_suspended ≡ true
      → is_still_on u.suspension_until s.now ≡ true
      → is_ok (refresh_session env user jti s).0 ≡ false
  unfolding refresh_session find_user_by_id
  session_refuses user none u s found h k = refl
  session_refuses user (some jti) u s found h k =
      let no = rotate_refuses user jti u s h k in ground arith

  refresh_refuses :
      (c : Claims) (u : User) (s : Accounts)
      → user_of_id c.user_id s.users ≡ some u
      → u.is_suspended ≡ true
      → is_still_on u.suspension_until s.now ≡ true
      → is_ok (refresh_tokens env (some c) s).0 ≡ false
  unfolding refresh_tokens
  refresh_refuses c u s found h k =
      let no = session_refuses c.user_id c.id u s found h k in ground arith

  admit_as_refuses :
      (u : User) (device : ℕ) (s : Accounts)
      → u.is_suspended ≡ true
      → is_still_on u.suspension_until s.now ≡ true
      → is_ok (admit_as env u device s).0 ≡ false
  unfolding admit_as
  admit_as_refuses u device s h k = let same = stays_suspended u s h k in ground arith

  reconcile-now : (id : ℕ) (s : Accounts) → (reconcile_role_state env id s).1.now ≡ s.now
  unfolding reconcile_role_state
  reconcile-now id s = ground arith

  role_refuses :
      (r : Result RoleState) (u : User) (device : ℕ) (s : Accounts)
      → u.is_suspended ≡ true
      → is_still_on u.suspension_until s.now ≡ true
      → is_ok (admit_as env (with_role env u r) device s).0 ≡ false
  role_refuses (ok role) u device s h k =
      admit_as_refuses (record u { role_state = role }) device s h k
  role_refuses (err e) u device s h k = admit_as_refuses u device s h k

  admit_refuses :
      (u : User) (device : ℕ) (s : Accounts)
      → u.is_suspended ≡ true
      → is_still_on u.suspension_until s.now ≡ true
      → is_ok (admit env u device s).0 ≡ false
  unfolding admit
  admit_refuses u device s h k =
      let (r, s') = reconcile_role_state env u.id s in
      role_refuses r u device s' h (ap (is_still_on u.suspension_until) (reconcile-now u.id s) ∙ k)

  device-now :
      (id device : ℕ) (s : Accounts) → (update_user_device_id env id device s).1.now ≡ s.now
  unfolding update_user_device_id
  device-now id device s = ground arith

  login_refuses :
      (phone device : ℕ) (u : User) (s : Accounts)
      → user_of_phone phone s.users ≡ some u
      → u.is_suspended ≡ true
      → is_still_on u.suspension_until s.now ≡ true
      → is_ok (login env phone device s).0 ≡ false
  unfolding login find_user_by_phone
  login_refuses phone device u s found h k =
      let no =
        admit_refuses u device (update_user_device_id env u.id device s).1 h
          (ap (is_still_on u.suspension_until) (device-now u.id device s) ∙ k) in
      ground arith

  match_code-users :
      (phone : ℕ) (p : Purpose) (code : ℕ) (o : OtpRecord) (s : Accounts)
      → ((match_code env phone p code o s).1.users ≡ s.users)
        × ((match_code env phone p code o s).1.now ≡ s.now)
  unfolding match_code mark_otp_used
  match_code-users phone p code o s = ground arith

  check_code-users :
      (phone : ℕ) (p : Purpose) (code : ℕ) (s : Accounts)
      → ((check_code env phone p code s).1.users ≡ s.users)
        × ((check_code env phone p code s).1.now ≡ s.now)
  unfolding check_code check_found find_latest_otp
  check_code-users phone p code s = grind (arith, match_code-users)

  check_with_pindo-users :
      (phone : ℕ) (p : Purpose) (code : ℕ) (s : Accounts)
      → ((check_with_pindo env phone p code s).1.users ≡ s.users)
        × ((check_with_pindo env phone p code s).1.now ≡ s.now)
  unfolding check_with_pindo verify_with_pindo
  check_with_pindo-users phone p code s = ground arith

  check_otp-users :
      (phone : ℕ) (p : Purpose) (code : ℕ) (s : Accounts)
      → ((check_otp env phone p code s).1.users ≡ s.users)
        × ((check_otp env phone p code s).1.now ≡ s.now)
  unfolding check_otp
  check_otp-users phone p code s =
      let sent = check_code-users phone p code s in
      let asked = check_with_pindo-users phone p code s in ground arith

  entry_refuses :
      (phone device : ℕ) (u : User) (s : Accounts)
      → user_of_phone phone s.users ≡ some u
      → u.is_suspended ≡ true
      → is_still_on u.suspension_until s.now ≡ true
      → is_ok (enter env phone device s).0 ≡ false
  unfolding enter upsert_user find_user_by_phone
  entry_refuses phone device u s found h k =
      let no =
        admit_refuses u device (update_user_device_id env u.id device s).1 h
          (ap (is_still_on u.suspension_until) (device-now u.id device s) ∙ k) in
      ground arith

  verify_refuses :
      (phone code : ℕ) (p : Purpose) (device : ℕ) (u : User) (s : Accounts)
      → user_of_phone phone s.users ≡ some u
      → u.is_suspended ≡ true
      → is_still_on u.suspension_until s.now ≡ true
      → is_ok (verify_otp env phone code p device s).0 ≡ false
  unfolding verify_otp
  verify_refuses phone code p device u s found h k =
      let s' = (check_otp env phone p code s).1 in
      let (same, now) = check_otp-users phone p code s in
      let no =
        entry_refuses phone device u s' (ap (user_of_phone phone) same ∙ found) h
          (ap (is_still_on u.suspension_until) now ∙ k) in
      ground arith

-- While an account is suspended, without an end or before it, neither `VerifyOTP` nor `Login` succeeds
-- with its phone number, nor `RefreshTokens` with a token of its id, whatever fails on the way. Tickets
-- for a socket are not covered.
pub suspended_refused :
    (env : Env) (phone code device : ℕ) (p : Purpose) (c : Claims) (u : User) (s : Accounts)
    → user_of_phone phone s.users ≡ some u
    → user_of_id c.user_id s.users ≡ some u
    → u.is_suspended ≡ true
    → is_still_on u.suspension_until s.now ≡ true
    → (is_ok (login env phone device s).0 ≡ false)
      × (is_ok (verify_otp env phone code p device s).0 ≡ false)
      × (is_ok (refresh_tokens env (some c) s).0 ≡ false)
suspended_refused env phone code device p c u s found own h k = (
  login_refuses env phone device u s found h k,
  verify_refuses env phone code p device u s found h k,
  refresh_refuses env c u s own h k,
)
