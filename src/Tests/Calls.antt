-- ===== src/Tests/Calls.antt =====
-- The theorems on the C functions and the counters, at concrete inputs.
use libagent.Base.{
  List, ℕ, ◌+◌, ◌≡◌, refl, true, false, Option, none, some, [], ◌∷◌, arith, ◌==◌, if◌then◌else◌,
  ◌++◌, take, drop, length-take, ok, err,
}
use libagent.Text.{Bytes, codes, crlf, bytes_eq}
use libagent.Text.Utf8.{is_utf8}
use libagent.Config.{
  not_present, Env, trace_agent_program, join, ends_with_slash, first_existing, search_program,
  get_trace_agent_program,
}
use libagent.Config.Library.{
  Paths, parent_of, get_library_directory_unix, places_of, stands_in, path_in,
  get_trace_agent_program_found,
}
use libagent.Metrics.{Floats, Metrics}
use libagent.Metrics
use libagent.Metrics.Laws.{requests, responses}
use libagent.Metrics.Averages.{record_all, Fits, Tallies, record_all-Tallies}
use libagent.Io.{got}
use libagent.Manager.Readiness
use libagent.Dogstatsd.{Datagram, PipeFile}
use libagent.Ffi.{
  failed, panicked, negsuc, Event, ProxyArgs, Library, Site, proxy_trace_agent,
  send_dogstatsd_metric, send_dogstatsd_metric_over_pipe,
}
use libagent.Ffi.Laws.{
  EndsWell, Reports, IsBalanced, proxy_trace_agent-Reports, send_dogstatsd_metric-IsBalanced,
}

abbrev floats : Floats Unit
floats = record {
  zero_float = tt;
  alpha = tt;
  one_minus_alpha = tt;
  add = λ a b. tt;
  mul = λ a b. tt;
  is_zero = λ a. true;
}

abbrev no_metrics : Metrics Unit
no_metrics = Metrics.new floats

no_requests : requests no_metrics ≡ 0
unfolding requests Metrics.new
no_requests = refl

no_responses : responses no_metrics ≡ 0
unfolding responses Metrics.new
no_responses = refl

no_samples : no_metrics.response_times.sample_count ≡ 0
unfolding Metrics.new Metrics.new_stats
no_samples = refl

balanced : IsBalanced no_metrics
unfolding Metrics.new
balanced = refl

no_metrics-Fits : Fits floats no_metrics
unfolding Metrics.new
no_metrics-Fits = record {
  ok = omega arith;
  redirect = omega arith;
  client = omega arith;
  server = omega arith;
}

-- Four responses, one of them outside the classes that have an average.
record_all-Tallies_example :
    Tallies floats no_metrics
      ((204, tt) ∷ (301, tt) ∷ (404, tt) ∷ (503, tt) ∷ [])
      (record_all floats no_metrics ((204, tt) ∷ (301, tt) ∷ (404, tt) ∷ (503, tt) ∷ []))
record_all-Tallies_example =
    record_all-Tallies floats no_metrics ((204, tt) ∷ (301, tt) ∷ (404, tt) ∷ (503, tt) ∷ [])
      no_metrics-Fits (omega (arith, no_samples))

-- A trace agent that answers each request alike. The state is the time.
abbrev site : Site Unit ℕ Bytes
site = record {
  host = record {
    env = λ name. not_present;
    places = record { library_dir = none; exe_dir = none; exists = λ path. false };
    split = λ s. none;
  };
  debug = false;
  floats = floats;
  to_uppercase = λ s. s;
  probe = record { connect = λ path t. (true, t); now = λ t. (t, t); sleep = λ d t. t + d };
  socket = λ t. record {
    connect = λ path. ok (codes "HTTP/1.1 200 OK" ++ crlf ++ crlf ++ codes "{}");
    write_all = λ bytes s. ok s;
    read = λ n s. got (take n s) (drop n s);
    drains = λ s. true;
  };
  response_ms = λ t. tt;
}

site-IsClock : Readiness.IsClock site.probe (λ t. t)
site-IsClock = record {
  now_reads = λ t. (omega arith, omega arith);
  sleep_lasts = λ d t. omega arith;
  connect_later = λ path t. omega arith;
}

site-EndsWell : (t : ℕ) → EndsWell (site.socket t)
site-EndsWell t = record {
  bounded = λ n s. omega (arith, length-take n s);
  quiet = λ n s. tt;
  drains = λ s. refl;
}

abbrev library : Library Unit
library = record { request_id = 1; manager = none; metrics = no_metrics }

abbrev call : ProxyArgs
call = record {
  method = some (codes "PUT");
  path = some (codes "v0.4/traces");
  headers = some (codes "X-Count: 1");
  body = some (codes "[]");
  on_response = true;
  on_error = true;
}

proxy_trace_agent-Reports_example :
    Reports call library (proxy_trace_agent site none call library 7)
    × ((events : List Event) (lib : Library Unit) (t : ℕ)
        → proxy_trace_agent site (some (events, lib, t)) call library 7
          ≡ some (negsuc 99, events ++ failed panicked ∷ [], lib, t))
proxy_trace_agent-Reports_example =
    proxy_trace_agent-Reports site (λ t. t) site-IsClock site-EndsWell call library 7
      (omega (arith, no_requests)) (omega (arith, no_responses)) (omega (arith, no_samples))

-- A socket that takes every datagram and counts them.
abbrev counting : Datagram ℕ
counting = record { unbound = λ n. ok n; send_to = λ payload path n. ok (n + 1) }

abbrev empty_env : Env
empty_env name = not_present

-- A pipe that counts its writes, and cannot be opened after the first.
abbrev pipe : PipeFile ℕ
pipe = record {
  open_to_write = λ path n. if n == 0 then ok n else err (codes "busy");
  write_all = λ payload n. ok (n + 1);
}

send_dogstatsd_metric-IsBalanced_example :
    IsBalanced
      (send_dogstatsd_metric empty_env counting (some (codes "page.views:1|c")) library 0).1.metrics
    × IsBalanced
        (send_dogstatsd_metric_over_pipe empty_env pipe
          (some (codes "page.views:1|c"))
          library
          0).1.metrics
send_dogstatsd_metric-IsBalanced_example =
    send_dogstatsd_metric-IsBalanced empty_env counting pipe (some (codes "page.views:1|c")) library
      0 balanced

-- The program stands beside the library only.
abbrev paths : Paths
paths = record {
  parent = λ path.
      if bytes_eq path (codes "/opt/dd/libagent.so")
      then some (codes "/opt/dd")
      else some (codes "/usr/bin");
  current_exe = some (codes "/usr/bin/app");
  exists = λ path. bytes_eq path (codes "/opt/dd/agentless-agent");
}

abbrev library_dir : Option Bytes
library_dir = get_library_directory_unix paths (some (some (codes "/opt/dd/libagent.so")))

get_trace_agent_program_found_example :
    get_trace_agent_program (places_of paths library_dir) (λ name. not_present) ≡ (
      if stands_in paths library_dir
      then path_in library_dir
      else if stands_in paths (parent_of paths paths.current_exe)
      then path_in (parent_of paths paths.current_exe)
      else trace_agent_program)
get_trace_agent_program_found_example =
    get_trace_agent_program_found paths library_dir (λ name. not_present) refl

beside_library :
    get_trace_agent_program (places_of paths library_dir) (λ name. not_present)
    ≡ codes "/opt/dd/agentless-agent"
unfolding get_library_directory_unix get_trace_agent_program search_program first_existing places_of
    join ends_with_slash is_utf8 bytes_eq
beside_library = refl
