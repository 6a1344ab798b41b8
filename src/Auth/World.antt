-- ===== src/Auth/World.antt =====
-- The tables and the Redis keys of api-server/internal/auth, and what it takes from outside.
use rides_api.Base.{ℕ, Bool, true, false, Option, none, some, List, if◌then◌else◌, String}
use rides_api.Base.Errors.{AppError, custom, unavailable}
use rides_api.Base.Action.{Action, ◌>>◌, pure, raise, modify, raise_if}

pub data Purpose : Type 0 where
  registration login_purpose phone_change admin_driver_verify : Purpose

abbrev pub purpose_eq : Purpose → Purpose → Bool
purpose_eq registration registration = true
purpose_eq login_purpose login_purpose = true
purpose_eq phone_change phone_change = true
purpose_eq admin_driver_verify admin_driver_verify = true
purpose_eq _ _ = false

pub data RoleState : Type 0 where
  customer_only driver_active driver_suspended driver_pending admin : RoleState

abbrev pub role_state_eq : RoleState → RoleState → Bool
role_state_eq customer_only customer_only = true
role_state_eq driver_active driver_active = true
role_state_eq driver_suspended driver_suspended = true
role_state_eq driver_pending driver_pending = true
role_state_eq admin admin = true
role_state_eq _ _ = false

-- The column `approval_status` of a driver's profile; `other` is any of the review's states.
pub data Approval : Type 0 where
  approved suspended rejected other : Approval

-- `User`; phone numbers and devices are numbers.
pub record User : Type 0 where
  pub id : ℕ
  pub phone_number : Option ℕ
  pub full_name : Option String
  pub email : Option String
  pub role_state : RoleState
  pub device_id : Option ℕ
  pub is_suspended : Bool
  pub suspension_until : Option ℕ

-- `OTPRecord`
pub record OtpRecord : Type 0 where
  pub id : ℕ
  pub phone_number : ℕ
  pub otp_hash : ℕ
  pub purpose : Purpose
  pub is_used : Bool
  pub expires_at : ℕ

pub record DeviceSession : Type 0 where
  pub user_id : ℕ
  pub device_id : ℕ

-- The value of a session's key; `legacy_value` is one that was written before the two were told apart.
pub data SessionValue : Type 0 where
  refresh_value access_value legacy_value revoked_value : SessionValue

-- The name and the address that a registration leaves for its code.
pub record Meta : Type 0 where
  pub full_name : Option String
  pub email : Option String

-- `otps` has the newest row first, `approvals` is `driver_profiles` by the user, and a phone number of
-- an account that was deleted is `none`. `attempts`, `meta`, `verify_request`, `sessions` and
-- `tickets` are keys of Redis.
pub record Accounts : Type 0 where
  pub users : List User
  pub next_user : ℕ
  pub otps : List OtpRecord
  pub next_otp : ℕ
  pub devices : List DeviceSession
  pub approvals : ℕ → Option Approval
  pub attempts : ℕ → Purpose → ℕ
  pub meta : ℕ → Option Meta
  pub verify_request : ℕ → Option ℕ
  pub sessions : ℕ → ℕ → Option SessionValue
  pub tickets : ℕ → Bool
  pub now : ℕ

pub data Statement : Type 0 where
  reconcile_q role_q find_phone_q find_id_q create_user_q update_device_q update_phone_q : Statement
  create_otp_q find_otp_q mark_otp_q log_device_q collision_q flag_q clear_q anonymize_q : Statement

pub data TokenType : Type 0 where
  access refresh ws : TokenType

-- `middleware.Claims`; a token is what its signature protects, so it is taken as its claims.
pub record Claims : Type 0 where
  pub user_id : ℕ
  pub role_state : RoleState
  pub token_type : TokenType
  pub is_suspended : Bool
  pub id : Option ℕ

pub record TokenPair : Type 0 where
  pub access_token : Claims
  pub refresh_token : Claims
  pub role_state : RoleState

-- What a call takes from outside: the statements that fail, whether Redis answers, the settings, bcrypt
-- (`matches hash code`), the provider's check of a code (`none` for an error), the request of a new
-- verification, whether a message goes out, the signer, and fresh ids.
pub record Env : Type 0 where
  pub fails : Statement → Bool
  pub redis_down : Bool
  pub pindo_verify : Bool
  pub is_production : Bool
  pub matches : ℕ → ℕ → Bool
  pub check_verify : ℕ → ℕ → Option Bool
  pub start_verify : ℕ → Option ℕ
  pub sends_sms : Bool
  pub signs : Bool
  pub fresh_access : ℕ
  pub fresh_refresh : ℕ

abbrev pub Call : Type 0 → Type 0
Call A = Action Accounts A

abbrev pub exec : Env → Statement → Call (Unit {0})
exec env q = raise_if (env.fails q) unavailable

-- A Redis command whose error is not looked at.
abbrev pub redis_do : Env → (Accounts → Accounts) → Call (Unit {0})
redis_do env f = modify (λ s. if env.redis_down then s else f s)

-- One whose error ends the call.
abbrev pub redis_must : Env → (Accounts → Accounts) → Call (Unit {0})
redis_must env f = do raise_if env.redis_down unavailable; modify f

abbrev pub found_or : {A : Type 0} → Option A → AppError → Call A
found_or none e = raise e
found_or (some a) e = pure a

abbrev pub otp_locked : AppError
otp_locked = custom 429 "OTP_LOCKED"

abbrev pub invalid_otp : AppError
invalid_otp = custom 400 "INVALID_OTP"

abbrev pub account_suspended : AppError
account_suspended = custom 403 "ACCOUNT_SUSPENDED"

abbrev pub token_invalid : AppError
token_invalid = custom 401 "TOKEN_INVALID"

abbrev pub token_revoked : AppError
token_revoked = custom 401 "TOKEN_REVOKED"

abbrev pub phone_taken : AppError
phone_taken = custom 409 "PHONE_TAKEN"
