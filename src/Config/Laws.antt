-- ===== src/Config/Laws.antt =====
-- The settings stay in their ranges, whatever the environment holds.
use libagent.Base.{ℕ, ◌≤◌, min, max, ◌≡◌, Option, none, some, arith}
use libagent.Text.Number.{u64_max, from_str_radix}
use libagent.Config.{
  Var, present, not_present, not_unicode, Env, validate_numeric_config, interval_of,
  get_monitor_interval_secs, min_monitor_interval_secs, max_monitor_interval_secs,
  interval_of_number,
}

-- Clamping gives the number of the range that is nearest: the value itself where it lies inside.
pub validate_numeric_config_clamps :
    (value lo hi : ℕ) → lo ≤ hi → validate_numeric_config value lo hi ≡ max lo (min value hi)
unfolding validate_numeric_config
validate_numeric_config_clamps value lo hi h = ground arith

interval_of_number_bounds :
    (n : Option ℕ) → (1 ≤ interval_of_number n) × (interval_of_number n ≤ 300)
unfolding validate_numeric_config
interval_of_number_bounds none = omega arith
interval_of_number_bounds (some n) = ground arith

interval_of_bounds : (v : Var) → (1 ≤ interval_of v) × (interval_of v ≤ 300)
unfolding interval_of
interval_of_bounds (present v) = interval_of_number_bounds (from_str_radix 10 u64_max v)
interval_of_bounds not_present = omega arith
interval_of_bounds not_unicode = omega arith

-- Whatever the environment holds, the monitor's interval is from one second to five minutes.
pub get_monitor_interval_secs_bounds :
    (env : Env)
    → (min_monitor_interval_secs ≤ get_monitor_interval_secs env)
      × (get_monitor_interval_secs env ≤ max_monitor_interval_secs)
unfolding get_monitor_interval_secs
get_monitor_interval_secs_bounds env = interval_of_bounds _
