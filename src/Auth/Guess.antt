-- ===== src/Auth/Guess.antt =====
-- Wrong codes and the lock (api-server/internal/auth/service.go).
use rides_api.Base.{
  ℕ, suc, ◌+◌, ◌≡◌, refl, Bool, true, false, ◌||◌, some, arith, List, [], ◌∷◌, any_of, find_first,
  leb, length, String, Option,
}
use rides_api.Base.Action.{err}
use rides_api.Auth.World.{
  Purpose, OtpRecord, Accounts, Env, otp_locked, find_otp_q, purpose_eq, registration,
  login_purpose, phone_change, admin_driver_verify,
}
use rides_api.Auth.Repo.{find_latest_otp, is_live}
use rides_api.Auth.Otp.{
  max_otp_attempts, check_found, check_code, check_otp, match_code, put_attempts, initiate_otp,
}
use rides_api.Auth.Service.{verify_otp}
use rides_api.Auth.Lock.{locked_refuses, new_code_stays_locked}

purpose_eq-same : (p : Purpose) → purpose_eq p p ≡ true
purpose_eq-same registration = refl
purpose_eq-same login_purpose = refl
purpose_eq-same phone_change = refl
purpose_eq-same admin_driver_verify = refl

or_false : (a b : Bool) → (a || b) ≡ false → (a ≡ false) × (b ≡ false)
or_false a b h = ground arith

put_attempts-same :
    (phone : ℕ) (p : Purpose) (n : ℕ) (s : Accounts)
    → (put_attempts phone p n s).attempts phone p ≡ n
put_attempts-same phone p n s = let same = purpose_eq-same p in ground arith

module _ (env : Env) (phone device : ℕ) (p : Purpose) where
  -- One code after another.
  pub try_codes : List ℕ → Accounts → Accounts
  try_codes [] s = s
  try_codes (code ∷ codes) s = try_codes codes (verify_otp env phone code p device s).1

  module _ (o : OtpRecord) where
    wrong_counts :
        (code m : ℕ) (s : Accounts)
        → env.redis_down ≡ false
        → env.pindo_verify ≡ false
        → env.fails find_otp_q ≡ false
        → find_first (is_live phone p s.now) s.otps ≡ some o
        → env.matches o.otp_hash code ≡ false
        → leb max_otp_attempts (s.attempts phone p + suc m) ≡ true
        → let s' = (verify_otp env phone code p device s).1 in
          (find_first (is_live phone p s'.now) s'.otps ≡ some o)
          × (leb max_otp_attempts (s'.attempts phone p + m) ≡ true)
    unfolding verify_otp check_otp check_code check_found find_latest_otp match_code
    wrong_counts code m s up sms runs found wrong h =
        let put = put_attempts-same phone p (s.attempts phone p + 1) s in ground arith

    guesses_reach :
        (codes : List ℕ) (s : Accounts)
        → env.redis_down ≡ false
        → env.pindo_verify ≡ false
        → env.fails find_otp_q ≡ false
        → find_first (is_live phone p s.now) s.otps ≡ some o
        → any_of (env.matches o.otp_hash) codes ≡ false
        → leb max_otp_attempts (s.attempts phone p + length codes) ≡ true
        → leb max_otp_attempts ((try_codes codes s).attempts phone p) ≡ true
    unfolding try_codes
    guesses_reach [] s up sms runs found wrong h = ground arith
    guesses_reach (code ∷ codes) s up sms runs found wrong h =
        let (this, rest) =
          or_false (env.matches o.otp_hash code) (any_of (env.matches o.otp_hash) codes) wrong in
        let (found', h') = wrong_counts code (length codes) s up sms runs found this h in
        guesses_reach codes (verify_otp env phone code p device s).1 up sms runs found' rest h'

-- Where Redis answers, this service checks the codes itself, the query for a code does not fail and no
-- time passes, five or more wrong guesses at the live code of a number and a purpose, counting those
-- before, lock them: the check of any further code, the right one too, is refused as locked and changes
-- nothing, and it is so too after a new code has been asked for.
pub guesses_lock :
    (env : Env) (phone device : ℕ) (p : Purpose) (o : OtpRecord) (codes : List ℕ) (code hash : ℕ)
    (name email : Option String) (s : Accounts)
    → env.redis_down ≡ false
    → env.pindo_verify ≡ false
    → env.fails find_otp_q ≡ false
    → find_first (is_live phone p s.now) s.otps ≡ some o
    → any_of (env.matches o.otp_hash) codes ≡ false
    → leb max_otp_attempts (s.attempts phone p + length codes) ≡ true
    → let s' = try_codes env phone device p codes s in
      let s'' = (initiate_otp env phone p hash name email s').1 in
      (verify_otp env phone code p device s' ≡ (err otp_locked, s'))
      × (verify_otp env phone code p device s'' ≡ (err otp_locked, s''))
guesses_lock env phone device p o codes code hash name email s up sms runs found wrong h =
    let s' = try_codes env phone device p codes s in
    let locked = guesses_reach env phone device p o codes s up sms runs found wrong h in
    (
      locked_refuses env phone p code device s' up locked,
      new_code_stays_locked env phone p hash code device name email s' up locked,
    )
