-- ===== src/Auth/Otp.antt =====
-- One-time passwords (api-server/internal/auth/service.go).
use rides_api.Base.{
  ℕ, ◌+◌, Bool, true, false, not, ◌&&◌, Option, none, some, update, leb, if◌then◌else◌, String,
  ◌==◌,
}
use rides_api.Base.Errors.{AppError, custom, unavailable}
use rides_api.Base.Action.{Result, ok, err, ◌>>=◌, ◌>>◌, pure, raise, gets, raise_if}
use rides_api.Auth.World.{
  Purpose, registration, admin_driver_verify, purpose_eq, OtpRecord, Accounts, Env, Call, redis_do,
  found_or, otp_locked, invalid_otp, Meta,
}
use rides_api.Auth.Repo.{create_otp, find_latest_otp, mark_otp_used}

abbrev pub max_otp_attempts : ℕ
max_otp_attempts = 5

-- A write of the counter `otp:attempts:<phone>:<purpose>`.
abbrev pub put_attempts : ℕ → Purpose → ℕ → Accounts → Accounts
put_attempts phone purpose n s = record s {
  attempts = λ p q. if (p == phone) && purpose_eq q purpose then n else s.attempts p q;
}

-- An error, in place of the one that a call would give.
abbrev pub or_error : {A : Type 0} → AppError → Call A → Call A
or_error e m s = let (r, s') = m s in (elim r [ ok a ↦ ok a | err x ↦ err e ], s')

abbrev pub or_former : Option String → Option Meta → Option String
or_former (some e) m = some e
or_former none none = none
or_former none (some m) = m.email

module _ (env : Env) where
  abbrev pub attempts_of : ℕ → Purpose → Call ℕ
  attempts_of phone purpose = gets (λ s. if env.redis_down then 0 else s.attempts phone purpose)

  -- The refusal after too many wrong guesses.
  abbrev pub check_lock : ℕ → Purpose → Call (Unit {0})
  check_lock phone purpose = do
    n ← attempts_of phone purpose
    raise_if (leb max_otp_attempts n) otp_locked

  abbrev pub count_failure : ℕ → Purpose → Call (Unit {0})
  count_failure phone purpose =
      redis_do env (λ s. put_attempts phone purpose (s.attempts phone purpose + 1) s)

  abbrev pub clear_failures : ℕ → Purpose → Call (Unit {0})
  clear_failures phone purpose = redis_do env (put_attempts phone purpose 0)

  -- The comparison with the stored hash: a wrong code is counted, a right one is consumed.
  unfoldable pub match_code : ℕ → Purpose → ℕ → OtpRecord → Call (Unit {0})
  match_code phone purpose code o =
      if env.matches o.otp_hash code
      then (do clear_failures phone purpose; mark_otp_used env o.id)
      else (do count_failure phone purpose; raise invalid_otp)

  -- The check of a code that this service has sent, with the query for its row.
  unfoldable pub check_found : ℕ → Purpose → ℕ → Call OtpRecord → Call (Unit {0})
  check_found phone purpose code query = do
    check_lock phone purpose
    o ← query
    match_code phone purpose code o

  unfoldable pub check_code : ℕ → Purpose → ℕ → Call (Unit {0})
  check_code phone purpose code = check_found phone purpose code (find_latest_otp env phone purpose)

  abbrev pub judge : ℕ → Option Bool → Call (Unit {0})
  judge phone none = raise (custom 502 "VERIFY_UNAVAILABLE")
  judge phone (some false) = raise invalid_otp
  judge phone (some true) =
      redis_do env (λ s. record s { verify_request = update s.verify_request phone none })

  -- `verifyWithPindo`
  unfoldable pub verify_with_pindo : ℕ → ℕ → Call (Unit {0})
  verify_with_pindo phone code = do
    req ←
        found_or (← gets (λ s. if env.redis_down then none else s.verify_request phone))
          (custom 400 "OTP_EXPIRED")
    judge phone (env.check_verify req code)

  -- The result of the provider's check, counted.
  abbrev pub count_result : ℕ → Purpose → Result (Unit {0}) → Call (Unit {0})
  count_result phone purpose (ok tt) = clear_failures phone purpose
  count_result phone purpose (err e) = do count_failure phone purpose; raise e

  unfoldable pub check_with_pindo : ℕ → Purpose → ℕ → Call (Unit {0})
  check_with_pindo phone purpose code = do
    check_lock phone purpose
    count_after (verify_with_pindo phone code)
    where
      count_after : Call (Unit {0}) → Call (Unit {0})
      count_after m s = let (r, s') = m s in count_result phone purpose r s'

  -- What `VerifyOTP` does with the code.
  unfoldable pub check_otp : ℕ → Purpose → ℕ → Call (Unit {0})
  check_otp phone purpose code =
      if env.pindo_verify
      then check_with_pindo phone purpose code
      else check_code phone purpose code

  -- `VerifyOTPCode`
  unfoldable pub verify_otp_code : ℕ → ℕ → Call (Unit {0})
  verify_otp_code phone code = do
    o ← or_error invalid_otp (find_latest_otp env phone admin_driver_verify)
    raise_if (not (env.matches o.otp_hash code)) invalid_otp
    mark_otp_used env o.id

  -- The name that a registration leaves for its code; an address that it does not give stays as it was.
  abbrev pub stash : ℕ → Purpose → Option String → Option String → Call (Unit {0})
  stash phone registration (some name) email = redis_do env (λ s. record s {
    meta =
        update s.meta phone
          (some (record { full_name = some name; email = or_former email (s.meta phone) }));
  })
  stash phone _ _ email = pure tt

  abbrev pub keep_request : ℕ → Option ℕ → Call (Unit {0})
  keep_request phone none = raise unavailable
  keep_request phone (some req) =
      redis_do env (λ s. record s { verify_request = update s.verify_request phone (some req) })

  -- `initiateWithPindoVerify`
  unfoldable pub initiate_with_pindo : ℕ → Purpose → Option String → Option String → Call (Unit {0})
  initiate_with_pindo phone purpose name email = do
    keep_request phone (env.start_verify phone)
    stash phone purpose name email

  -- `InitiateOTP` with the hash of the code that it makes up; a name that is not empty
  unfoldable pub initiate_otp : ℕ → Purpose → ℕ → Option String → Option String → Call (Unit {0})
  initiate_otp phone purpose hash name email =
      if env.pindo_verify then initiate_with_pindo phone purpose name email else (do
        now ← gets (λ s. s.now)
        create_otp env phone hash purpose (now + 600)
        stash phone purpose name email
        raise_if (not env.sends_sms && env.is_production) unavailable)
