-- ===== src/Ffi/Report.antt =====
-- ffi.rs: `GetMetrics`, the copy of the metrics for C. A duration is in nanoseconds, and `as_secs` is
-- `Duration::as_secs_f64`. Where the closure panics, `catch_unwind` gives no metrics.
use libagent.Base.{ℕ, Option, none, some}
use libagent.Metrics.{Floats, Metrics, uptime}

pub record MetricsData (F : Type 0) : Type 0 where
  pub agent_spawns : ℕ
  pub trace_agent_spawns : ℕ
  pub agent_failures : ℕ
  pub trace_agent_failures : ℕ
  pub uptime_seconds : F
  pub proxy_get_requests : ℕ
  pub proxy_post_requests : ℕ
  pub proxy_put_requests : ℕ
  pub proxy_delete_requests : ℕ
  pub proxy_patch_requests : ℕ
  pub proxy_head_requests : ℕ
  pub proxy_options_requests : ℕ
  pub proxy_other_requests : ℕ
  pub proxy_2xx_responses : ℕ
  pub proxy_3xx_responses : ℕ
  pub proxy_4xx_responses : ℕ
  pub proxy_5xx_responses : ℕ
  pub response_time_ema_all : F
  pub response_time_ema_2xx : F
  pub response_time_ema_4xx : F
  pub response_time_ema_5xx : F
  pub response_time_sample_count : ℕ
  pub dogstatsd_requests : ℕ
  pub dogstatsd_successes : ℕ
  pub dogstatsd_errors : ℕ

module _ {F : Type 0} (floats : Floats F) (as_secs : ℕ → F) where
  unfoldable pub seconds_or_zero : Option ℕ → F
  seconds_or_zero none = floats.zero_float
  seconds_or_zero (some d) = as_secs d

  unfoldable pub get_metrics : ℕ → Metrics F → MetricsData F
  get_metrics now m = record {
    agent_spawns = m.agent_spawns;
    trace_agent_spawns = m.trace_agent_spawns;
    agent_failures = m.agent_failures;
    trace_agent_failures = m.trace_agent_failures;
    uptime_seconds = seconds_or_zero (uptime now m);
    proxy_get_requests = m.proxy_get_requests;
    proxy_post_requests = m.proxy_post_requests;
    proxy_put_requests = m.proxy_put_requests;
    proxy_delete_requests = m.proxy_delete_requests;
    proxy_patch_requests = m.proxy_patch_requests;
    proxy_head_requests = m.proxy_head_requests;
    proxy_options_requests = m.proxy_options_requests;
    proxy_other_requests = m.proxy_other_requests;
    proxy_2xx_responses = m.proxy_2xx_responses;
    proxy_3xx_responses = m.proxy_3xx_responses;
    proxy_4xx_responses = m.proxy_4xx_responses;
    proxy_5xx_responses = m.proxy_5xx_responses;
    response_time_ema_all = m.response_times.ema_all;
    response_time_ema_2xx = m.response_times.ema_2xx;
    response_time_ema_4xx = m.response_times.ema_4xx;
    response_time_ema_5xx = m.response_times.ema_5xx;
    response_time_sample_count = m.response_times.sample_count;
    dogstatsd_requests = m.dogstatsd_requests;
    dogstatsd_successes = m.dogstatsd_successes;
    dogstatsd_errors = m.dogstatsd_errors;
  }

  -- The struct of the arm, where the closure panicked.
  unfoldable pub zeroed : MetricsData F
  zeroed = record {
    agent_spawns = 0;
    trace_agent_spawns = 0;
    agent_failures = 0;
    trace_agent_failures = 0;
    uptime_seconds = floats.zero_float;
    proxy_get_requests = 0;
    proxy_post_requests = 0;
    proxy_put_requests = 0;
    proxy_delete_requests = 0;
    proxy_patch_requests = 0;
    proxy_head_requests = 0;
    proxy_options_requests = 0;
    proxy_other_requests = 0;
    proxy_2xx_responses = 0;
    proxy_3xx_responses = 0;
    proxy_4xx_responses = 0;
    proxy_5xx_responses = 0;
    response_time_ema_all = floats.zero_float;
    response_time_ema_2xx = floats.zero_float;
    response_time_ema_4xx = floats.zero_float;
    response_time_ema_5xx = floats.zero_float;
    response_time_sample_count = 0;
    dogstatsd_requests = 0;
    dogstatsd_successes = 0;
    dogstatsd_errors = 0;
  }

  -- The match on what `catch_unwind` gives.
  unfoldable pub get_metrics_or_zeroed : Option (MetricsData F) → MetricsData F
  get_metrics_or_zeroed (some metrics_data) = metrics_data
  get_metrics_or_zeroed none = zeroed
