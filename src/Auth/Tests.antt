-- ===== src/Auth/Tests.antt =====
-- An account with one session (api-server/internal/auth/service.go).
use rides_api.Base.{ℕ, ◌≡◌, refl, true, false, some, none, [], ◌∷◌, ◌==◌, ◌&&◌, if◌then◌else◌}
use rides_api.Base.Action.{is_ok, err}
use rides_api.Auth.World.{
  User, OtpRecord, Claims, Accounts, Env, login_purpose, purpose_eq, customer_only, refresh,
  refresh_value, otp_locked,
}
use rides_api.Auth.Repo.{
  find_user_by_id, find_user_by_phone, find_latest_otp, mark_otp_used, reconcile_role_state,
  wanted_role, update_user_device_id, log_device_session, detect_device_collision, clear_suspension,
}
use rides_api.Auth.Otp.{initiate_otp, check_otp, check_code, check_found, match_code}
use rides_api.Auth.Tokens.{
  lift_expired_suspension, issue_token_pair, rotate, rotate_as, refresh_session, refresh_tokens,
}
use rides_api.Auth.Service.{login, verify_otp, enter, upsert_user, admit, admit_as, guard_device}
use rides_api.Auth.Sessions.{refresh_once}
use rides_api.Auth.Suspended.{suspended_refused}
use rides_api.Auth.Guess.{try_codes, guesses_lock}

abbrev a_user : User
a_user = record {
  id = 7;
  phone_number = some 788;
  full_name = some "Aline";
  email = none;
  role_state = customer_only;
  device_id = none;
  is_suspended = false;
  suspension_until = none;
}

-- Suspended until 500.
abbrev banned : User
banned = record a_user { is_suspended = true; suspension_until = some 500 }

abbrev a_code : OtpRecord
a_code = record {
  id = 1;
  phone_number = 788;
  otp_hash = 1234;
  purpose = login_purpose;
  is_used = false;
  expires_at = 600;
}

abbrev accounts : User → ℕ → Accounts
accounts u guesses = record {
  users = u ∷ [];
  next_user = 8;
  otps = a_code ∷ [];
  next_otp = 2;
  devices = [];
  approvals = λ i. none;
  attempts = λ p q. if p == 788 && purpose_eq q login_purpose then guesses else 0;
  meta = λ p. none;
  verify_request = λ p. none;
  sessions = λ u j. if u == 7 && j == 31 then some refresh_value else none;
  tickets = λ j. false;
  now = 100;
}

abbrev env : Env
env = record {
  fails = λ q. false;
  redis_down = false;
  pindo_verify = false;
  is_production = true;
  matches = λ hash code. hash == code;
  check_verify = λ req code. none;
  start_verify = λ phone. none;
  sends_sms = true;
  signs = true;
  fresh_access = 41;
  fresh_refresh = 42;
}

abbrev a_token : Claims
a_token = record {
  user_id = 7;
  role_state = customer_only;
  token_type = refresh;
  is_suspended = false;
  id = some 31;
}

code_signs_in : is_ok (verify_otp env 788 1234 login_purpose 5 (accounts a_user 4)).0 ≡ true
unfolding verify_otp check_otp check_code check_found find_latest_otp match_code mark_otp_used enter
    upsert_user find_user_by_phone update_user_device_id admit reconcile_role_state wanted_role
    admit_as lift_expired_suspension log_device_session guard_device detect_device_collision
    issue_token_pair
code_signs_in = refl

-- A ban that is over is lifted on the way.
ban_ends : is_ok (login env 788 5 (record (accounts banned 0) { now = 500 })).0 ≡ true
unfolding login clear_suspension find_user_by_phone update_user_device_id admit reconcile_role_state
    wanted_role admit_as lift_expired_suspension log_device_session guard_device
    detect_device_collision issue_token_pair
ban_ends = refl

refresh_once_example :
    is_ok
      (refresh_tokens env
        (some a_token)
        (refresh_tokens env (some a_token) (accounts a_user 0)).1).0
    ≡ false
unfolding refresh_tokens refresh_session find_user_by_id rotate lift_expired_suspension rotate_as
    issue_token_pair
refresh_once_example = refresh_once env env a_token 31 (accounts a_user 0) refl refl refl refreshes
  where
    refreshes : is_ok (refresh_tokens env (some a_token) (accounts a_user 0)).0 ≡ true
    refreshes = refl

suspended_refused_example :
    (is_ok (login env 788 5 (accounts banned 0)).0 ≡ false)
    × (is_ok (verify_otp env 788 1234 login_purpose 5 (accounts banned 0)).0 ≡ false)
    × (is_ok (refresh_tokens env (some a_token) (accounts banned 0)).0 ≡ false)
suspended_refused_example =
    suspended_refused env 788 1234 5 login_purpose a_token banned (accounts banned 0) refl refl refl
      refl

guesses_lock_example :
    let s' = try_codes env 788 5 login_purpose (1 ∷ 2 ∷ 3 ∷ []) (accounts a_user 2) in
    let s'' = (initiate_otp env 788 login_purpose 1234 none none s').1 in
    (verify_otp env 788 1234 login_purpose 5 s' ≡ (err otp_locked, s'))
    × (verify_otp env 788 1234 login_purpose 5 s'' ≡ (err otp_locked, s''))
guesses_lock_example =
    guesses_lock env 788 5 login_purpose a_code (1 ∷ 2 ∷ 3 ∷ []) 1234 1234 none none
      (accounts a_user 2) refl refl refl refl refl refl
