-- ===== src/Ride/Escalation.antt =====
-- The penalty for cancellations (`recordCancelPenalty`, api-server/internal/ride/service.go).
use rides_api.Base.{
  ℕ, ◌+◌, ◌*◌, ◌≡◌, true, false, ◌&&◌, some, none, arith, ltb, leb, if◌then◌else◌, ◌==◌,
}
use rides_api.Ride.World.{Account, World, Env, Role, increment_bans_q, ban_q, suspend_q}
use rides_api.Ride.Repo.{increment_user_ban_count, ban_user_until, suspend_user_indefinitely}
use rides_api.Ride.Penalty.{
  hour, daily_cancels, ban_threshold, record_cancel_penalty, penalise, suspend_or_ban,
}

-- The account of a user with `n` bans before this one, at the time `now`.
abbrev pub banned : {F : Type 0} → Env F → ℕ → Account → Account
banned env now a = record {
  ban_count = a.ban_count + 1;
  is_suspended = true;
  suspension_until =
      if leb env.bans_before_suspend (a.ban_count + 1)
      then none
      else some (now + env.ban_hours * hour);
}

module _ {F : Type 0} where
  -- With Redis up and no statement failing, the cancellation that brings the count of the day to the
  -- threshold, and no other, bans the user: for so many hours, or for good once there have been enough
  -- bans. A threshold of 0 bans nobody.
  pub record_cancel_penalty_lem :
      (env : Env F) (user : ℕ) (role : Role) (w : World F)
      → env.redis_down ≡ false
      → env.fails increment_bans_q ≡ false
      → env.fails ban_q ≡ false
      → env.fails suspend_q ≡ false
      → let t = ban_threshold env role in
        let n = daily_cancels role w.redis user + 1 in
        let w' = (record_cancel_penalty env user role w).1 in
        (daily_cancels role w'.redis user ≡ n)
        × (w'.db.accounts user ≡ (
            if ltb 0 t && (n == t)
            then banned env w.now (w.db.accounts user)
            else w.db.accounts user))
  unfolding record_cancel_penalty penalise suspend_or_ban increment_user_ban_count ban_user_until
      suspend_user_indefinitely
  record_cancel_penalty_lem env user role w up u1 u2 u3 = ground arith
