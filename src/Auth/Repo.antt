-- ===== src/Auth/Repo.antt =====
-- The statements of api-server/internal/auth/repository.go.
use rides_api.Base.{
  ℕ, suc, Bool, true, false, not, ◌&&◌, ◌||◌, Option, none, some, List, [], ◌∷◌, ◌==◌, map,
  find_first, any_of, ltb, if◌then◌else◌, String,
}
use rides_api.Base.Errors.{not_found, unavailable}
use rides_api.Base.Action.{◌>>=◌, ◌>>◌, pure, gets, modify, raise_if, return_if}
use rides_api.Auth.World.{
  Purpose, purpose_eq, RoleState, customer_only, driver_active, driver_suspended, driver_pending,
  admin, Approval, approved, suspended, rejected, other, User, OtpRecord, DeviceSession, Accounts,
  Env, Call, exec, found_or, invalid_otp, reconcile_q, find_phone_q, find_id_q, create_user_q,
  update_device_q, update_phone_q, create_otp_q, find_otp_q, mark_otp_q, log_device_q, collision_q,
  flag_q, clear_q, anonymize_q, role_q, role_state_eq,
}

abbrev pub has_number : ℕ → Option ℕ → Bool
has_number phone none = false
has_number phone (some p) = p == phone

abbrev pub user_of_phone : ℕ → List User → Option User
user_of_phone phone = find_first (λ u. has_number phone u.phone_number)

abbrev pub user_of_id : ℕ → List User → Option User
user_of_id id = find_first (λ u. u.id == id)

-- An UPDATE of `users` by the id.
abbrev pub update_user : ℕ → (User → User) → Accounts → Accounts
update_user id f s = record s { users = map (λ u. if u.id == id then f u else u) s.users }

-- The state that a driver's capability asks for.
unfoldable pub wanted_role : Option Approval → RoleState
wanted_role none = customer_only
wanted_role (some approved) = driver_active
wanted_role (some suspended) = driver_suspended
wanted_role (some rejected) = customer_only
wanted_role (some other) = driver_pending

abbrev pub is_admin : RoleState → Bool
is_admin admin = true
is_admin customer_only = false
is_admin driver_active = false
is_admin driver_suspended = false
is_admin driver_pending = false

-- The rows that `FindLatestOTP` looks at.
abbrev pub is_live : ℕ → Purpose → ℕ → OtpRecord → Bool
is_live phone purpose now o =
    o.phone_number == phone && purpose_eq o.purpose purpose && not o.is_used && ltb now o.expires_at

module _ (env : Env) where
  -- The end of `ReconcileRoleState`.
  abbrev pub put_role : ℕ → RoleState → RoleState → Call RoleState
  put_role id current want =
      return_if (role_state_eq want current) current (do
        exec env role_q
        modify (update_user id (λ x. record x { role_state = want }))
        pure want)

  -- `ReconcileRoleState`
  unfoldable pub reconcile_role_state : ℕ → Call RoleState
  reconcile_role_state id = do
    exec env reconcile_q
    u ← found_or (← gets (λ s. user_of_id id s.users)) not_found
    approval ← gets (λ s. s.approvals id)
    return_if (is_admin u.role_state) u.role_state (put_role id u.role_state (wanted_role approval))

  -- `FindUserByPhone` and `FindUserByID`
  unfoldable pub find_user_by_phone : ℕ → Call User
  find_user_by_phone phone = do
    exec env find_phone_q
    found_or (← gets (λ s. user_of_phone phone s.users)) not_found

  unfoldable pub find_user_by_id : ℕ → Call User
  find_user_by_id id = do
    exec env find_id_q
    found_or (← gets (λ s. user_of_id id s.users)) not_found

  -- `CreateUser`; `phone_number` is unique.
  unfoldable pub create_user : ℕ → ℕ → Option String → Option String → Call User
  create_user phone device name email = do
    taken ← gets (λ s. any_of (λ u. has_number phone u.phone_number) s.users)
    raise_if (env.fails create_user_q || taken) unavailable
    id ← gets (λ s. s.next_user)
    let u : User = record {
      id = id;
      phone_number = some phone;
      full_name = name;
      email = email;
      role_state = customer_only;
      device_id = some device;
      is_suspended = false;
      suspension_until = none;
    }
    modify (λ s. record s { users = u ∷ s.users; next_user = suc id })
    pure u

  unfoldable pub update_user_device_id : ℕ → ℕ → Call (Unit {0})
  update_user_device_id id device = do
    exec env update_device_q
    modify (update_user id (λ x. record x { device_id = some device }))

  -- `UpdateUserPhone`; true where the number is another user's, which the index refuses
  unfoldable pub update_user_phone : ℕ → ℕ → Call Bool
  update_user_phone id phone = do
    exec env update_phone_q
    taken ← gets (λ s. any_of (λ u. has_number phone u.phone_number && not (u.id == id)) s.users)
    modify
        (λ s. if taken then s else update_user id (λ x. record x { phone_number = some phone }) s)
    pure taken

  -- `CreateOTP`
  unfoldable pub create_otp : ℕ → ℕ → Purpose → ℕ → Call (Unit {0})
  create_otp phone hash purpose expires = do
    exec env create_otp_q
    modify (λ s. record s {
      otps =
          (record {
            id = s.next_otp;
            phone_number = phone;
            otp_hash = hash;
            purpose = purpose;
            is_used = false;
            expires_at = expires;
          })
          ∷ s.otps;
      next_otp = suc s.next_otp;
    })

  -- `FindLatestOTP`
  unfoldable pub find_latest_otp : ℕ → Purpose → Call OtpRecord
  find_latest_otp phone purpose = do
    exec env find_otp_q
    found_or (← gets (λ s. find_first (is_live phone purpose s.now) s.otps)) invalid_otp

  -- `MarkOTPUsed`
  unfoldable pub mark_otp_used : ℕ → Call (Unit {0})
  mark_otp_used id = do
    exec env mark_otp_q
    modify (λ s. record s {
      otps = map (λ o. if o.id == id then record o { is_used = true } else o) s.otps;
    })

  unfoldable pub log_device_session : ℕ → ℕ → Call (Unit {0})
  log_device_session id device = do
    exec env log_device_q
    modify (λ s. record s { devices = (record { user_id = id; device_id = device }) ∷ s.devices })

  -- `DetectDeviceCollision`, false where the query fails: its callers drop the error.
  unfoldable pub detect_device_collision : ℕ → ℕ → Accounts → Bool
  detect_device_collision device id s =
      not (env.fails collision_q)
      && any_of (λ d. d.device_id == device && not (d.user_id == id)) s.devices

  unfoldable pub flag_user_for_review : ℕ → Call (Unit {0})
  flag_user_for_review id = do
    exec env flag_q
    modify (update_user id (λ x. record x { is_suspended = true }))

  unfoldable pub clear_suspension : ℕ → Call (Unit {0})
  clear_suspension id = do
    exec env clear_q
    modify (update_user id (λ x. record x { is_suspended = false; suspension_until = none }))

  -- `AnonymizeUser`, one transaction, as far as the tables here go
  unfoldable pub anonymize_user : ℕ → Call (Unit {0})
  anonymize_user id = do
    exec env anonymize_q
    modify (λ s. record s { devices = drop_devices s.devices })
    modify (
        update_user id (λ x. record x {
          phone_number = none;
          full_name = some "Deleted User";
          email = none;
          device_id = none;
        }))
    where
      drop_devices : List DeviceSession → List DeviceSession
      drop_devices [] = []
      drop_devices (d ∷ ds) =
          let rest = drop_devices ds in if d.user_id == id then rest else d ∷ rest
