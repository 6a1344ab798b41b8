-- ===== src/Auth/Sessions.antt =====
-- Which calls give tokens (api-server/internal/auth/service.go).
use rides_api.Base.{ℕ, ◌≡◌, true, false, not, some, ◌==◌, arith}
use rides_api.Base.Action.{is_ok, Ends, Ends-bind, raise_if}
use rides_api.Auth.World.{User, Claims, Accounts, Env, revoked_value, token_revoked}
use rides_api.Auth.Repo.{find_user_by_id}
use rides_api.Auth.Tokens.{
  is_refresh, lift_expired_suspension, issue_token_pair, rotate, refresh_session, refresh_tokens,
  rotate_as, put_session, session_of, rotate_for,
}

module _ (env : Env) where
  issue-sessions :
      (user jti : ℕ) (u : User) (s : Accounts)
      → (env.fresh_refresh == jti) ≡ false
      → (env.fresh_access == jti) ≡ false
      → (issue_token_pair env u s).1.sessions user jti ≡ s.sessions user jti
  unfolding issue_token_pair
  issue-sessions user jti u s new new' = ground arith

  revokes_as :
      (user jti : ℕ) (u : User) (s : Accounts)
      → (env.fresh_refresh == jti) ≡ false
      → (env.fresh_access == jti) ≡ false
      → is_ok (rotate_as env user jti u s).0 ≡ true
      → (rotate_as env user jti u s).1.sessions user jti ≡ some revoked_value
  unfolding rotate_as
  revokes_as user jti u s new new' h =
      let kept = issue-sessions user jti u (put_session user jti (some revoked_value) s) new new' in
      ground arith

  rotate_revokes :
      (user jti : ℕ) (found : User)
      → (env.fresh_refresh == jti) ≡ false
      → (env.fresh_access == jti) ≡ false
      → Ends (λ s. s.sessions user jti ≡ some revoked_value) (rotate env user jti found)
  unfolding rotate
  rotate_revokes user jti found new new' =
      Ends-bind (λ s. s.sessions user jti ≡ some revoked_value) (rotate_as env user jti)
        (lift_expired_suspension env found) (λ u s. revokes_as user jti u s new new')

  session_revokes :
      (user jti : ℕ)
      → (env.fresh_refresh == jti) ≡ false
      → (env.fresh_access == jti) ≡ false
      → Ends (λ s. s.sessions user jti ≡ some revoked_value) (refresh_session env user (some jti))
  unfolding refresh_session
  session_revokes user jti new new' s =
      let revoked = λ (s : Accounts). s.sessions user jti ≡ some revoked_value in
      Ends-bind revoked (λ _. rotate_for env user jti)
        (raise_if (not (is_refresh (session_of env user jti s))) token_revoked)
        (λ _.
          Ends-bind revoked (rotate env user jti) (find_user_by_id env user)
            λ u. rotate_revokes user jti u new new')
        s

  refresh_revokes :
      (c : Claims) (jti : ℕ)
      → c.id ≡ some jti
      → (env.fresh_refresh == jti) ≡ false
      → (env.fresh_access == jti) ≡ false
      → Ends (λ s. s.sessions c.user_id jti ≡ some revoked_value) (refresh_tokens env (some c))
  unfolding refresh_tokens
  refresh_revokes c jti h new new' s k =
      let next = session_revokes c.user_id jti new new' s in ground arith

  session_needs_refresh :
      (user jti : ℕ) (s : Accounts)
      → s.sessions user jti ≡ some revoked_value
      → is_ok (refresh_session env user (some jti) s).0 ≡ false
  unfolding refresh_session
  session_needs_refresh user jti s h = ground arith

  -- A session that is revoked gives no tokens.
  revoked_refuses :
      (c : Claims) (jti : ℕ) (s : Accounts)
      → c.id ≡ some jti
      → s.sessions c.user_id jti ≡ some revoked_value
      → is_ok (refresh_tokens env (some c) s).0 ≡ false
  unfolding refresh_tokens
  revoked_refuses c jti s h k = let no = session_needs_refresh c.user_id jti s k in ground arith

-- Where a refresh succeeds with a token of a session, and the ids of the new sessions are fresh, the
-- same token is refused afterwards, whatever fails by then.
pub refresh_once :
    (env later : Env) (c : Claims) (jti : ℕ) (s : Accounts)
    → c.id ≡ some jti
    → (env.fresh_refresh == jti) ≡ false
    → (env.fresh_access == jti) ≡ false
    → is_ok (refresh_tokens env (some c) s).0 ≡ true
    → is_ok (refresh_tokens later (some c) (refresh_tokens env (some c) s).1).0 ≡ false
refresh_once env later c jti s h new new' k =
    revoked_refuses later c jti (refresh_tokens env (some c) s).1 h
      (refresh_revokes env c jti h new new' s k)
