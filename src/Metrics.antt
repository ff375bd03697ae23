-- ===== src/Metrics.antt =====
-- metrics.rs: the counters of the library. An `AtomicU64` is a number below 2 ^ 64 that `fetch_add`
-- wraps around. The moving averages are `f64`, which is a parameter: a type with its operations.
pub mod Format
pub mod Laws
pub mod Classes
pub mod Averages
use libagent.Base.{ℕ, ◌+◌, ◌-◌, ◌%◌, Bool, ◌&&◌, Option, none, some, ltb, leb, ◌==◌, if◌then◌else◌}
use libagent.Text.{Bytes, codes, bytes_eq}

-- The operations on `f64` that the code uses, and the constants 0.1 and 1.0 - 0.1.
pub record Floats (F : Type 0) : Type 0 where
  pub zero_float : F
  pub alpha : F
  pub one_minus_alpha : F
  pub add : F → F → F
  pub mul : F → F → F
  pub is_zero : F → Bool

pub record ResponseTimeStats (F : Type 0) : Type 0 where
  pub ema_all : F
  pub ema_2xx : F
  pub ema_4xx : F
  pub ema_5xx : F
  pub sample_count : ℕ

pub record Metrics (F : Type 0) : Type 0 where
  pub agent_spawns : ℕ
  pub trace_agent_spawns : ℕ
  pub agent_failures : ℕ
  pub trace_agent_failures : ℕ
  pub initialization_time : Option ℕ
  pub proxy_get_requests : ℕ
  pub proxy_post_requests : ℕ
  pub proxy_delete_requests : ℕ
  pub proxy_patch_requests : ℕ
  pub proxy_put_requests : ℕ
  pub proxy_head_requests : ℕ
  pub proxy_options_requests : ℕ
  pub proxy_other_requests : ℕ
  pub proxy_2xx_responses : ℕ
  pub proxy_3xx_responses : ℕ
  pub proxy_4xx_responses : ℕ
  pub proxy_5xx_responses : ℕ
  pub response_times : ResponseTimeStats F
  pub dogstatsd_requests : ℕ
  pub dogstatsd_successes : ℕ
  pub dogstatsd_errors : ℕ

abbrev pub u64_mod : ℕ
u64_mod = 18446744073709551616

-- `fetch_add(1, Ordering::Relaxed)`.
abbrev pub fetch_add_one : ℕ → ℕ
fetch_add_one n = (n + 1) % u64_mod

-- `(lo..hi).contains(&code)`.
abbrev pub in_class : ℕ → ℕ → ℕ → Bool
in_class lo hi code = leb lo code && ltb code hi

-- The patterns of the match on the method in upper case.
pub data Method : Type 0 where
  get post delete patch put head options other : Method

unfoldable pub method_of : Bytes → Method
unfolding bytes_eq
method_of upper =
    if bytes_eq upper (codes "GET")
    then get
    else if bytes_eq upper (codes "POST")
    then post
    else if bytes_eq upper (codes "DELETE")
    then delete
    else if bytes_eq upper (codes "PATCH")
    then patch
    else if bytes_eq upper (codes "PUT")
    then put
    else if bytes_eq upper (codes "HEAD")
    then head
    else if bytes_eq upper (codes "OPTIONS")
    then options
    else other

-- The patterns of the match on the status code.
pub data Class : Type 0 where
  success redirect client_error server_error ignored : Class

unfoldable pub class_of : ℕ → Class
class_of code =
    if in_class 200 300 code
    then success
    else if in_class 300 400 code
    then redirect
    else if in_class 400 500 code
    then client_error
    else if in_class 500 600 code
    then server_error
    else ignored

module _ {F : Type 0} (floats : Floats F) where
  unfoldable pub new_stats : ResponseTimeStats F
  new_stats = record {
    ema_all = floats.zero_float;
    ema_2xx = floats.zero_float;
    ema_4xx = floats.zero_float;
    ema_5xx = floats.zero_float;
    sample_count = 0;
  }

  -- `alpha * duration + (1.0 - alpha) * average`.
  unfoldable pub blend : F → F → F
  blend duration average =
      floats.add (floats.mul floats.alpha duration) (floats.mul floats.one_minus_alpha average)

  -- An average that is still 0.0 starts at the duration.
  unfoldable pub blend_class : F → F → F
  unfolding blend
  blend_class duration average = if floats.is_zero average then duration else blend duration average

  unfoldable pub update : ResponseTimeStats F → F → ℕ → ResponseTimeStats F
  unfolding blend_class
  update st duration_ms status_code =
      let all = if st.sample_count == 0 then duration_ms else blend duration_ms st.ema_all in
      let st' = record st { ema_all = all; sample_count = fetch_add_one st.sample_count } in
      if in_class 200 300 status_code
      then record st' { ema_2xx = blend_class duration_ms st.ema_2xx }
      else if in_class 400 500 status_code
      then record st' { ema_4xx = blend_class duration_ms st.ema_4xx }
      else if in_class 500 600 status_code
      then record st' { ema_5xx = blend_class duration_ms st.ema_5xx }
      else st'

  unfoldable pub new : Metrics F
  unfolding new_stats
  new = record {
    agent_spawns = 0;
    trace_agent_spawns = 0;
    agent_failures = 0;
    trace_agent_failures = 0;
    initialization_time = none;
    proxy_get_requests = 0;
    proxy_post_requests = 0;
    proxy_delete_requests = 0;
    proxy_patch_requests = 0;
    proxy_put_requests = 0;
    proxy_head_requests = 0;
    proxy_options_requests = 0;
    proxy_other_requests = 0;
    proxy_2xx_responses = 0;
    proxy_3xx_responses = 0;
    proxy_4xx_responses = 0;
    proxy_5xx_responses = 0;
    response_times = new_stats;
    dogstatsd_requests = 0;
    dogstatsd_successes = 0;
    dogstatsd_errors = 0;
  }

  -- `record_proxy_response`: the class of the status, then the averages.
  unfoldable pub count_class : Class → Metrics F → Metrics F
  count_class success m = record m { proxy_2xx_responses = fetch_add_one m.proxy_2xx_responses }
  count_class redirect m = record m { proxy_3xx_responses = fetch_add_one m.proxy_3xx_responses }
  count_class client_error m = record m {
    proxy_4xx_responses = fetch_add_one m.proxy_4xx_responses;
  }
  count_class server_error m = record m {
    proxy_5xx_responses = fetch_add_one m.proxy_5xx_responses;
  }
  count_class ignored m = m

  unfoldable pub record_proxy_response : Metrics F → ℕ → F → Metrics F
  record_proxy_response m status_code duration_ms =
      let m' = count_class (class_of status_code) m in
      record m' { response_times = update m'.response_times duration_ms status_code }

module _ {F : Type 0} where
  unfoldable pub record_agent_spawn : Metrics F → Metrics F
  record_agent_spawn m = record m { agent_spawns = fetch_add_one m.agent_spawns }

  unfoldable pub record_trace_agent_spawn : Metrics F → Metrics F
  record_trace_agent_spawn m = record m { trace_agent_spawns = fetch_add_one m.trace_agent_spawns }

  unfoldable pub record_agent_failure : Metrics F → Metrics F
  record_agent_failure m = record m { agent_failures = fetch_add_one m.agent_failures }

  unfoldable pub record_trace_agent_failure : Metrics F → Metrics F
  record_trace_agent_failure m = record m {
    trace_agent_failures = fetch_add_one m.trace_agent_failures;
  }

  unfoldable pub record_initialization : ℕ → Metrics F → Metrics F
  record_initialization now m = record m { initialization_time = some now }

  unfoldable pub clear_initialization : Metrics F → Metrics F
  clear_initialization m = record m { initialization_time = none }

  -- `uptime`: the time since the initialization, if there was one.
  unfoldable pub uptime : ℕ → Metrics F → Option ℕ
  uptime now m = elim m.initialization_time [ none ↦ none | some start ↦ some (now - start) ]

  -- The arms of `record_proxy_request`.
  unfoldable pub count_method : Method → Metrics F → Metrics F
  count_method get m = record m { proxy_get_requests = fetch_add_one m.proxy_get_requests }
  count_method post m = record m { proxy_post_requests = fetch_add_one m.proxy_post_requests }
  count_method delete m = record m { proxy_delete_requests = fetch_add_one m.proxy_delete_requests }
  count_method patch m = record m { proxy_patch_requests = fetch_add_one m.proxy_patch_requests }
  count_method put m = record m { proxy_put_requests = fetch_add_one m.proxy_put_requests }
  count_method head m = record m { proxy_head_requests = fetch_add_one m.proxy_head_requests }
  count_method options m = record m {
    proxy_options_requests = fetch_add_one m.proxy_options_requests;
  }
  count_method other m = record m { proxy_other_requests = fetch_add_one m.proxy_other_requests }

  -- `to_uppercase` is Unicode's, from tables outside the sources.
  unfoldable pub record_proxy_request : (Bytes → Bytes) → Bytes → Metrics F → Metrics F
  record_proxy_request to_uppercase method m = count_method (method_of (to_uppercase method)) m

  unfoldable pub record_dogstatsd_request : Metrics F → Metrics F
  record_dogstatsd_request m = record m { dogstatsd_requests = fetch_add_one m.dogstatsd_requests }

  unfoldable pub record_dogstatsd_success : Metrics F → Metrics F
  record_dogstatsd_success m = record m {
    dogstatsd_successes = fetch_add_one m.dogstatsd_successes;
  }

  unfoldable pub record_dogstatsd_error : Metrics F → Metrics F
  record_dogstatsd_error m = record m { dogstatsd_errors = fetch_add_one m.dogstatsd_errors }
