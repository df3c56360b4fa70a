-- ===== src/Common/Time.antt =====
-- common/utils/time.util.ts: `delaySeconds`, and `getTodayStartUtc` in milliseconds since the epoch.
use tech_trends.Base.{ℕ, ◌+◌, ◌-◌, ◌*◌, ◌/◌, ◌≤◌, ◌<◌, ◌↔◌, arith}

-- `setTimeout` waits for a number of milliseconds, while other things happen.
abbrev pub delay_seconds : {S : Type 0} → (ℕ → S → S) → ℕ → S → S
delay_seconds set_timeout seconds s = set_timeout (seconds * 1000) s

abbrev pub day_ms : ℕ
day_ms = 24 * 60 * 60 * 1000

abbrev pub kst_offset_ms : ℕ
kst_offset_ms = 9 * 60 * 60 * 1000

-- `setUTCHours(0, 0, 0, 0)` of a time since the epoch: the start of its UTC day.
pub utc_midnight : ℕ → ℕ
utc_midnight t = t / day_ms * day_ms

-- Instants from the first Korean midnight after the epoch on; an earlier one has a start before the
-- epoch, which is no natural number.
unfoldable pub get_today_start_utc : ℕ → ℕ
unfolding utc_midnight
get_today_start_utc now = utc_midnight (now + kst_offset_ms) - kst_offset_ms

-- The number of the Korean day that an instant falls on.
abbrev pub kst_day : ℕ → ℕ
kst_day t = (t + kst_offset_ms) / day_ms

-- From the first Korean midnight after the epoch on: the start of today is not after now and less
-- than a day before it, and it is the first instant of today: an instant is on it or after it
-- exactly when its Korean day is today or later.
pub get_today_start_utc_lem :
    (now : ℕ)
    → day_ms - kst_offset_ms ≤ now
    → (get_today_start_utc now ≤ now)
      × (now < get_today_start_utc now + day_ms)
      × ((t : ℕ) → (get_today_start_utc now ≤ t) ↔ (kst_day now ≤ kst_day t))
unfolding get_today_start_utc
get_today_start_utc_lem now h =
    (omega arith, omega arith, λ t. (λ p. omega arith, λ p. omega arith))
