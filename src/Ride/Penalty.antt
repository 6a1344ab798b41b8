-- ===== src/Ride/Penalty.antt =====
-- The escalating penalty for cancellations (`recordCancelPenalty`,
-- api-server/internal/ride/service.go).
use rides_api.Base.{ℕ, ◌+◌, ◌*◌, false, ◌&&◌, ◌==◌, ltb, leb, update, if◌then◌else◌}
use rides_api.Base.Action.{◌>>=◌, ◌>>◌, pure, gets, return_if, ignore}
use rides_api.Ride.World.{Redis, Env, Call, Role, driver}
use rides_api.Ride.Repo.{increment_user_ban_count, ban_user_until, suspend_user_indefinitely}
use rides_api.Ride.Redis.{redis_do}

module _ {F : Type 0} where
  abbrev pub daily_cancels : Role → Redis F → ℕ → ℕ
  daily_cancels driver r = r.driver_daily_cancel
  daily_cancels _ r = r.customer_daily_cancel

  abbrev pub count_cancel : Role → ℕ → Redis F → Redis F
  count_cancel driver user r = record r {
    driver_daily_cancel = update r.driver_daily_cancel user (r.driver_daily_cancel user + 1);
  }
  count_cancel _ user r = record r {
    customer_daily_cancel = update r.customer_daily_cancel user (r.customer_daily_cancel user + 1);
  }

  abbrev pub ban_threshold : Env F → Role → ℕ
  ban_threshold env driver = env.driver_ban_threshold
  ban_threshold env _ = env.customer_ban_threshold

-- An hour in nanoseconds.
abbrev pub hour : ℕ
hour = 3600 * 1000000000

module _ {F : Type 0} (env : Env F) where
  -- `revokeUserSessions`
  abbrev pub revoke_user_sessions : ℕ → Call F (Unit {0})
  revoke_user_sessions user =
      redis_do env (λ r. record r { sessions = update r.sessions user false })

  unfoldable pub suspend_or_ban : ℕ → ℕ → Call F (Unit {0})
  suspend_or_ban user bans =
      if leb env.bans_before_suspend bans then ignore (suspend_user_indefinitely env user) else (do
        now ← gets (λ w. w.now)
        ignore (ban_user_until env user (now + env.ban_hours * hour)))

  -- What happens when the count reaches the threshold; a failed increment ends it.
  unfoldable pub penalise : ℕ → Call F (Unit {0})
  penalise user = ignore (do
    bans ← increment_user_ban_count env user
    suspend_or_ban user bans
    revoke_user_sessions user)

  unfoldable pub record_cancel_penalty : ℕ → Role → Call F (Unit {0})
  record_cancel_penalty user role = return_if env.redis_down tt (do
    redis_do env (count_cancel role user)
    n ← gets (λ w. daily_cancels role w.redis user)
    (if ltb 0 (ban_threshold env role) && (n == ban_threshold env role)
        then penalise user
        else pure tt))
