-- ===== src/Config/Durations.antt =====
-- The durations are exact up to the bound of int64, and wrap beyond it.
use fw_id_agent.Prelude.{
  ℕ, ◌≤◌, ◌<◌, ◌*◌, ◌≡◌, pos, is_neg, true, some, wrap64_pos, wrap64_overflow, arith, int64_half,
}
use fw_id_agent.Config.{
  Tnd, Config, valid, get_keep_alive, get_login_timeout, get_logout_timeout, get_retry_timer,
  get_start_delay, minute, second,
}

-- The largest number of minutes, and of seconds, whose nanoseconds fit in an int64.
abbrev pub max_minutes : ℕ
max_minutes = 153722867

abbrev pub max_seconds : ℕ
max_seconds = 9223372036

pub record AreExact {C : Type 0} (c : Config C) (k i o r s : ℕ) : Type 0 where
  pub keep_alive_exact : get_keep_alive c ≡ pos (k * minute)
  pub login_exact : get_login_timeout c ≡ pos (i * second)
  pub logout_exact : get_logout_timeout c ≡ pos (o * second)
  pub retry_exact : get_retry_timer c ≡ pos (r * second)
  pub delay_exact : get_start_delay c ≡ pos (s * second)

seconds_exact : (n : ℕ) → n ≤ max_seconds → n * second < int64_half
seconds_exact n h = omega arith

minutes_exact : (n : ℕ) → n ≤ max_minutes → n * minute < int64_half
minutes_exact n h = omega arith

module _ {C : Type 0} (c : Config C) (k i o r s : ℕ) where
  -- A configuration whose minutes and seconds are not negative and within the bounds of an int64 has
  -- exactly the durations that it names.
  pub durations_exact :
      c.keep_alive ≡ pos k
      → c.login_timeout ≡ pos i
      → c.logout_timeout ≡ pos o
      → c.retry_timer ≡ pos r
      → c.start_delay ≡ pos s
      → k ≤ max_minutes
      → i ≤ max_seconds
      → o ≤ max_seconds
      → r ≤ max_seconds
      → s ≤ max_seconds
      → AreExact c k i o r s
  unfolding get_keep_alive get_login_timeout get_logout_timeout get_retry_timer get_start_delay
  durations_exact ek ei eo er es hk hi ho hr hs = record {
    keep_alive_exact = rw ek (wrap64_pos _ (minutes_exact k hk));
    login_exact = rw ei (wrap64_pos _ (seconds_exact i hi));
    logout_exact = rw eo (wrap64_pos _ (seconds_exact o ho));
    retry_exact = rw er (wrap64_pos _ (seconds_exact r hr));
    delay_exact = rw es (wrap64_pos _ (seconds_exact s hs));
  }

-- Any valid configuration is still accepted as valid with a keep-alive of 153722868 to 307445734
-- minutes, and its keep-alive duration is then negative.
pub keep_alive_overflow :
    (T : Tnd) (c : Config T.Conf) (k : ℕ)
    → valid T (some c) ≡ true
    → max_minutes < k
    → k ≤ 307445734
    → (valid T (some (record c { keep_alive = pos k })) ≡ true)
      × (is_neg (get_keep_alive (record c { keep_alive = pos k })) ≡ true)
unfolding valid get_keep_alive
keep_alive_overflow T c k v lo hi =
    (ground arith, wrap64_overflow (k * minute) (omega arith) (omega arith))
