-- ===== src/Auth/Service.antt =====
-- Signing in and the change of a phone number (api-server/internal/auth/service.go).
use rides_api.Base.{
  ℕ, Bool, false, not, ◌&&◌, Option, none, some, ◌==◌, update, if◌then◌else◌, String,
}
use rides_api.Base.Errors.{custom, not_found}
use rides_api.Base.Action.{Result, ok, err, ◌>>=◌, ◌>>◌, pure, raise, gets, raise_if, ignore}
use rides_api.Auth.World.{
  Purpose, phone_change, Meta, User, TokenPair, Env, Call, redis_do, account_suspended, phone_taken,
  invalid_otp, RoleState,
}
use rides_api.Auth.Repo.{
  has_number, reconcile_role_state, find_user_by_phone, find_user_by_id, create_user,
  update_user_device_id, update_user_phone, log_device_session, detect_device_collision,
  flag_user_for_review, find_latest_otp,
}
use rides_api.Auth.Otp.{check_otp, verify_with_pindo, initiate_otp, check_found, or_error}
use rides_api.Auth.Tokens.{lift_expired_suspension, issue_token_pair}

abbrev pub meta_name : Option Meta → Option String
meta_name none = none
meta_name (some m) = m.full_name

abbrev pub meta_email : Option Meta → Option String
meta_email none = none
meta_email (some m) = m.email

module _ (env : Env) where
  -- The first sign-in of a number, with what its registration left.
  unfoldable pub register_user : ℕ → ℕ → Call User
  register_user phone device = do
    m ← gets (λ s. if env.redis_down then none else s.meta phone)
    redis_do env (λ s. record s { meta = update s.meta phone none })
    create_user env phone device (meta_name m) (meta_email m)

  abbrev pub known_or_new : ℕ → ℕ → Result User → Call User
  known_or_new phone device (ok u) = do ignore (update_user_device_id env u.id device); pure u
  known_or_new phone device (err not_found) = register_user phone device
  known_or_new phone device (err e) = raise e

  -- The user of a number, who is created where there is none.
  unfoldable pub upsert_user : ℕ → ℕ → Call User
  upsert_user phone device s =
      let (r, s') = find_user_by_phone env phone s in known_or_new phone device r s'

  abbrev pub with_role : User → Result RoleState → User
  with_role u (ok role) = record u { role_state = role }
  with_role u (err e) = u

  abbrev pub reconciled : User → Call User
  reconciled u s = let (r, s') = reconcile_role_state env u.id s in (ok (with_role u r), s')

  -- A collision of devices suspends the account in production, after this sign-in.
  unfoldable pub guard_device : ℕ → ℕ → Call (Unit {0})
  guard_device device id = do
    hit ← gets (detect_device_collision env device id)
    (if hit && env.is_production then ignore (flag_user_for_review env id) else pure tt)

  -- What a sign-in does with its user, from the lift of a suspension on.
  unfoldable pub admit_as : User → ℕ → Call (TokenPair × User)
  admit_as r device = do
    u ← lift_expired_suspension env r
    raise_if u.is_suspended account_suspended
    ignore (log_device_session env u.id device)
    guard_device device u.id
    t ← issue_token_pair env u
    pure (t, u)

  -- The same from the role on.
  unfoldable pub admit : User → ℕ → Call (TokenPair × User)
  admit u device = do r ← reconciled u; admit_as r device

  -- What `VerifyOTP` does after the code.
  unfoldable pub enter : ℕ → ℕ → Call (TokenPair × User)
  enter phone device = do u ← upsert_user phone device; admit u device

  -- `VerifyOTP`
  unfoldable pub verify_otp : ℕ → ℕ → Purpose → ℕ → Call (TokenPair × User)
  verify_otp phone code purpose device = do check_otp env phone purpose code; enter phone device

  -- `Login`
  unfoldable pub login : ℕ → ℕ → Call (TokenPair × User)
  login phone device = do
    u ← find_user_by_phone env phone
    ignore (update_user_device_id env u.id device)
    admit u device

  -- A number that is another user's, where the query does not fail.
  abbrev pub is_others : ℕ → Result User → Bool
  is_others user (ok u) = not (u.id == user)
  is_others user (err e) = false

  abbrev pub check_free : ℕ → ℕ → Call (Unit {0})
  check_free user phone = do
    other ← gets (λ s. is_others user (find_user_by_phone env phone s).0)
    raise_if other phone_taken

  -- `RequestPhoneChange`
  unfoldable pub request_phone_change : ℕ → ℕ → ℕ → Call (Unit {0})
  request_phone_change user phone hash = do
    u ← find_user_by_id env user
    raise_if (has_number phone u.phone_number) (custom 400 "SAME_PHONE")
    check_free user phone
    initiate_otp env phone phone_change hash none none

  -- `VerifyPhoneChange`
  unfoldable pub verify_phone_change : ℕ → ℕ → ℕ → Call (Unit {0})
  verify_phone_change user phone code = do
    check_free user phone
    (if env.pindo_verify
        then verify_with_pindo env phone code
        else check_found env phone phone_change code
            (or_error invalid_otp (find_latest_otp env phone phone_change)))
    taken ← update_user_phone env user phone
    raise_if taken phone_taken
