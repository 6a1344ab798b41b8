-- ===== src/Auth/Tokens.antt =====
-- Tokens and their sessions (api-server/internal/auth/service.go).
use rides_api.Base.{
  ℕ, Bool, true, false, not, ◌&&◌, ◌||◌, Option, none, some, ◌==◌, update, ltb, if◌then◌else◌,
}
use rides_api.Base.Errors.{unavailable}
use rides_api.Base.Action.{
  ok, is_ok, ◌>>=◌, ◌>>◌, pure, raise, gets, raise_if, return_if, transaction,
}
use rides_api.Auth.World.{
  User, SessionValue, refresh_value, access_value, revoked_value, TokenType, access, refresh, ws,
  Claims, TokenPair, RoleState, Accounts, Env, Call, redis_do, redis_must, account_suspended,
  token_invalid, token_revoked, legacy_value,
}
use rides_api.Auth.Repo.{find_user_by_id, clear_suspension, anonymize_user}

abbrev pub put_session : ℕ → ℕ → Option SessionValue → Accounts → Accounts
put_session user jti v s = record s {
  sessions = λ u j. if (u == user) && (j == jti) then v else s.sessions u j;
}

abbrev pub is_refresh : Option SessionValue → Bool
is_refresh (some refresh_value) = true
is_refresh (some legacy_value) = true
is_refresh (some access_value) = false
is_refresh (some revoked_value) = false
is_refresh none = false

abbrev pub is_refresh_type : TokenType → Bool
is_refresh_type refresh = true
is_refresh_type access = false
is_refresh_type ws = false

-- `user.SuspensionUntil == nil || user.SuspensionUntil.After(time.Now())`
abbrev pub is_still_on : Option ℕ → ℕ → Bool
is_still_on none now = true
is_still_on (some t) now = ltb now t

module _ (env : Env) where
  abbrev pub lifted : User → Call User
  lifted u s =
      let (r, s') = clear_suspension env u.id s in
      (ok (if is_ok r then record u { is_suspended = false; suspension_until = none } else u), s')

  -- `liftExpiredSuspension`: the user as it is afterwards
  unfoldable pub lift_expired_suspension : User → Call User
  lift_expired_suspension u = do
    now ← gets (λ s. s.now)
    return_if (not u.is_suspended || is_still_on u.suspension_until now) u (lifted u)

  abbrev pub access_claims : User → Claims
  access_claims u = record {
    user_id = u.id;
    role_state = u.role_state;
    token_type = access;
    is_suspended = u.is_suspended;
    id = some env.fresh_access;
  }

  abbrev pub refresh_claims : User → Claims
  refresh_claims u = record {
    user_id = u.id;
    role_state = u.role_state;
    token_type = refresh;
    is_suspended = false;
    id = some env.fresh_refresh;
  }

  -- `issueTokenPair`
  unfoldable pub issue_token_pair : User → Call TokenPair
  issue_token_pair u = do
    raise_if (not env.signs) unavailable
    redis_must env (put_session u.id env.fresh_refresh (some refresh_value))
    redis_must env (put_session u.id env.fresh_access (some access_value))
    pure (record {
      access_token = access_claims u;
      refresh_token = refresh_claims u;
      role_state = u.role_state;
    })

  -- `RefreshTokens` for the user, after the lift.
  unfoldable pub rotate_as : ℕ → ℕ → User → Call TokenPair
  rotate_as user jti u =
      if u.is_suspended
      then (do redis_do env (put_session user jti (some revoked_value)); raise account_suspended)
      else (do redis_must env (put_session user jti (some revoked_value)); issue_token_pair u)

  unfoldable pub rotate : ℕ → ℕ → User → Call TokenPair
  rotate user jti found = do u ← lift_expired_suspension found; rotate_as user jti u

  abbrev pub session_of : ℕ → ℕ → Accounts → Option SessionValue
  session_of user jti s = if env.redis_down then none else s.sessions user jti

  abbrev pub rotate_for : ℕ → ℕ → Call TokenPair
  rotate_for user jti = do u ← find_user_by_id env user; rotate user jti u

  unfoldable pub refresh_session : ℕ → Option ℕ → Call TokenPair
  refresh_session user none = raise token_invalid
  refresh_session user (some jti) = do
    v ← gets (session_of user jti)
    raise_if (not (is_refresh v)) token_revoked
    rotate_for user jti

  -- `RefreshTokens`, with the claims of the token, `none` where its signature or its time does not hold
  unfoldable pub refresh_tokens : Option Claims → Call TokenPair
  refresh_tokens none = raise token_invalid
  refresh_tokens (some c) = do
    raise_if (not (is_refresh_type c.token_type)) token_invalid
    refresh_session c.user_id c.id

  abbrev pub revoke_refresh : ℕ → Option Claims → Call (Unit {0})
  revoke_refresh user none = pure tt
  revoke_refresh user (some c) =
      revoke_own (is_refresh_type c.token_type && (c.user_id == user)) c.id
    where
      revoke_own : Bool → Option ℕ → Call (Unit {0})
      revoke_own true (some jti) = redis_must env (put_session user jti (some revoked_value))
      revoke_own _ _ = pure tt

  -- `Logout`
  unfoldable pub logout : ℕ → ℕ → Option Claims → Call (Unit {0})
  logout user jti token = do
    redis_must env (put_session user jti (some revoked_value))
    revoke_refresh user token

  -- `DeleteAccount`: the user's row is scrubbed and the keys of all sessions are deleted.
  unfoldable pub delete_account : ℕ → Call (Unit {0})
  delete_account user = do
    transaction (anonymize_user env user)
    redis_do env (λ s. record s { sessions = λ u j. if u == user then none else s.sessions u j })

  -- `GenerateWSTicket`, with a fresh id
  unfoldable pub generate_ws_ticket : ℕ → RoleState → ℕ → Call Claims
  generate_ws_ticket user role jti = do
    raise_if (not env.signs) unavailable
    redis_must env (λ s. record s { tickets = update s.tickets jti true })
    pure (record {
      user_id = user;
      role_state = role;
      token_type = ws;
      is_suspended = false;
      id = some jti;
    })
