-- ===== src/Config.antt =====
-- config.rs: the settings that the environment variables override, in the Unix build, and the names of
-- the pipes in the Windows build. The environment, the file system and the shell-word splitter of the
-- crate `shell_words` are parameters.
pub mod Laws
pub mod Library
use libagent.Base.{
  ℕ, Bool, false, ◌&&◌, ◌||◌, Option, none, some, List, [], ◌∷◌, ◌++◌, ltb, ◌==◌, if◌then◌else◌,
}
use libagent.Text.{Bytes, codes, bytes_eq, is_empty, to_ascii_lowercase}
use libagent.Text.Spaces.{trim}
use libagent.Text.Number.{u64_max, from_str_radix}
use libagent.Text.Utf8.{is_utf8}

-- `std::env::var`.
pub data Var : Type 0 where
  present : Bytes → Var
  not_present not_unicode : Var

abbrev pub Env : Type 0
Env = Bytes → Var

abbrev pub agent_program : Bytes
agent_program = codes "datadog-agent"

abbrev pub trace_agent_program : Bytes
trace_agent_program = codes "agentless-agent"

-- `AGENT_ARGS` and `TRACE_AGENT_ARGS`.
abbrev pub default_args : List Bytes
default_args = []

abbrev pub monitor_interval_secs : ℕ
monitor_interval_secs = 1

abbrev pub min_monitor_interval_secs : ℕ
min_monitor_interval_secs = 1

abbrev pub max_monitor_interval_secs : ℕ
max_monitor_interval_secs = 300

abbrev pub graceful_shutdown_timeout_secs : ℕ
graceful_shutdown_timeout_secs = 5

-- `get_backoff_initial_secs` and `get_backoff_max_secs`.
abbrev pub backoff_initial_secs : ℕ
backoff_initial_secs = 1

abbrev pub backoff_max_secs : ℕ
backoff_max_secs = 30

-- `var(...).unwrap_or_else(|_| default)`.
unfoldable pub var_or : Bytes → Var → Bytes
var_or default (present v) = v
var_or default not_present = default
var_or default not_unicode = default

unfoldable pub get_agent_program : Env → Bytes
unfolding var_or
get_agent_program env = var_or agent_program (env (codes "LIBAGENT_AGENT_PROGRAM"))

unfoldable pub get_trace_agent_uds_path : Env → Bytes
unfolding var_or
get_trace_agent_uds_path env =
    var_or (codes "/tmp/datadog_libagent.socket") (env (codes "LIBAGENT_TRACE_AGENT_UDS"))

unfoldable pub get_dogstatsd_uds_path : Env → Bytes
unfolding var_or
get_dogstatsd_uds_path env =
    var_or (codes "/tmp/datadog_dogstatsd.socket") (env (codes "LIBAGENT_DOGSTATSD_UDS"))

-- The names of the pipes, in the Windows build.
unfoldable pub get_trace_agent_pipe_name : Env → Bytes
unfolding var_or
get_trace_agent_pipe_name env =
    var_or (codes "datadog-libagent") (env (codes "LIBAGENT_TRACE_AGENT_PIPE"))

unfoldable pub get_dogstatsd_pipe_name : Env → Bytes
unfolding var_or
get_dogstatsd_pipe_name env =
    var_or (codes "datadog-dogstatsd") (env (codes "LIBAGENT_DOGSTATSD_PIPE"))

-- The arguments in a variable, and the default where it is absent or does not split.
unfoldable pub args_of : (Bytes → Option (List Bytes)) → Var → List Bytes
args_of split not_present = default_args
args_of split not_unicode = default_args
args_of split (present v) = elim (split (trim v)) [ none ↦ default_args | some args ↦ args ]

unfoldable pub get_agent_args : (Bytes → Option (List Bytes)) → Env → List Bytes
unfolding args_of
get_agent_args split env = args_of split (env (codes "LIBAGENT_AGENT_ARGS"))

unfoldable pub get_trace_agent_args : (Bytes → Option (List Bytes)) → Env → List Bytes
unfolding args_of
get_trace_agent_args split env = args_of split (env (codes "LIBAGENT_TRACE_AGENT_ARGS"))

-- Where the trace agent may stand: the folders of the library and of the executable, if known.
pub record Places : Type 0 where
  pub library_dir : Option Bytes
  pub exe_dir : Option Bytes
  pub exists : Bytes → Bool

-- `Path::join` of a folder and a file name.
unfoldable pub ends_with_slash : Bytes → Bool
ends_with_slash [] = false
ends_with_slash (b ∷ []) = b == b'/'
ends_with_slash (b ∷ c ∷ s) = ends_with_slash (c ∷ s)

unfoldable pub join : Bytes → Bytes → Bytes
unfolding ends_with_slash
join dir name = if is_empty dir || ends_with_slash dir then dir ++ name else dir ++ (b'/' ∷ name)

abbrev pub candidate : Option Bytes → List Bytes → List Bytes
candidate none paths = paths
candidate (some dir) paths = join dir trace_agent_program ∷ paths

-- The first candidate that exists and is a `str`, or the bare name.
unfoldable pub first_existing : (Bytes → Bool) → List Bytes → Bytes
first_existing exists [] = trace_agent_program
first_existing exists (p ∷ ps) = if exists p && is_utf8 p then p else first_existing exists ps

unfoldable pub search_program : Places → Bytes
unfolding join first_existing
search_program places =
    first_existing places.exists (candidate places.library_dir (candidate places.exe_dir []))

unfoldable pub get_trace_agent_program : Places → Env → Bytes
unfolding search_program
get_trace_agent_program places env = elim (env (codes "LIBAGENT_TRACE_AGENT_PROGRAM")) [
  | present v ↦ v
  | not_present ↦ search_program places
  | not_unicode ↦ search_program places
]

abbrev falsey : Bytes → Bool
falsey s =
    bytes_eq s (codes "0")
    || (bytes_eq s (codes "false")
        || (bytes_eq s (codes "off") || (bytes_eq s (codes "no") || bytes_eq s (codes "disabled"))))

unfoldable pub remote_config_addr_of : Var → Option Bytes
unfolding bytes_eq trim to_ascii_lowercase
remote_config_addr_of (present v) =
    let trimmed = trim v in
    if is_empty trimmed || falsey (to_ascii_lowercase trimmed) then none else some trimmed
remote_config_addr_of not_unicode = none
remote_config_addr_of not_present = some (codes "127.0.0.1:5001")

unfoldable pub get_agent_remote_config_addr : Env → Option Bytes
unfolding remote_config_addr_of
get_agent_remote_config_addr env =
    remote_config_addr_of (env (codes "LIBAGENT_AGENT_REMOTE_CONFIG_ADDR"))

unfoldable pub validate_numeric_config : ℕ → ℕ → ℕ → ℕ
validate_numeric_config value lo hi =
    if ltb value lo then lo else if ltb hi value then hi else value

abbrev interval_of_number : Option ℕ → ℕ
interval_of_number none = monitor_interval_secs
interval_of_number (some n) =
    validate_numeric_config n min_monitor_interval_secs max_monitor_interval_secs

unfoldable pub interval_of : Var → ℕ
unfolding validate_numeric_config
interval_of (present v) = interval_of_number (from_str_radix 10 u64_max v)
interval_of not_present = monitor_interval_secs
interval_of not_unicode = monitor_interval_secs

unfoldable pub get_monitor_interval_secs : Env → ℕ
unfolding interval_of
get_monitor_interval_secs env = interval_of (env (codes "LIBAGENT_MONITOR_INTERVAL_SECS"))

abbrev truthy : Bytes → Bool
truthy s =
    bytes_eq s (codes "1")
    || (bytes_eq s (codes "true") || (bytes_eq s (codes "yes") || bytes_eq s (codes "on")))

unfoldable pub enabled_of : Var → Bool
unfolding bytes_eq trim to_ascii_lowercase
enabled_of (present v) = truthy (to_ascii_lowercase (trim v))
enabled_of not_present = false
enabled_of not_unicode = false

unfoldable pub is_agent_enabled : Env → Bool
unfolding enabled_of
is_agent_enabled env = enabled_of (env (codes "LIBAGENT_AGENT_ENABLED"))
