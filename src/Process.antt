-- ===== src/Process.antt =====
-- process.rs: the command that is spawned for a specification. The spawn itself is the system's.
use libagent.Base.{Bool, true, false, ◌||◌, List, [], ◌∷◌, ◌++◌, leb, if◌then◌else◌}
use libagent.Text.{Bytes, codes, bytes_eq}
use libagent.Config.{Env, get_trace_agent_uds_path}
use libagent.Logging.{is_debug_enabled, current_log_level, rank, debug}

pub record ProcessSpec : Type 0 where
  pub name : Bytes
  pub program : Bytes
  pub args : List Bytes

abbrev pub agent_name : Bytes
agent_name = codes "agent"

abbrev pub trace_agent_name : Bytes
trace_agent_name = codes "trace-agent"

unfoldable pub is_trace_agent : ProcessSpec → Bool
unfolding bytes_eq
is_trace_agent spec = bytes_eq spec.name trace_agent_name

unfoldable pub is_agent : ProcessSpec → Bool
unfolding bytes_eq
is_agent spec = bytes_eq spec.name agent_name

pub data Stdio : Type 0 where
  null inherit : Stdio

-- A `std::process::Command`, as far as it is configured here.
pub record Command : Type 0 where
  pub program : Bytes
  pub args : List Bytes
  pub env : List (Bytes × Bytes)
  pub stdin : Stdio
  pub stdout : Stdio
  pub stderr : Stdio
  pub new_session : Bool

-- Without the feature `log`.
unfoldable pub child_stdio_inherit : Env → Bool
child_stdio_inherit env = is_debug_enabled env || leb (rank debug) (rank (current_log_level env))

unfoldable pub configure_trace_agent_command : Env → Command → Command
configure_trace_agent_command env cmd = record cmd {
  env =
      cmd.env
      ++ (codes "DD_APM_RECEIVER_PORT", codes "0")
        ∷ (codes "DD_APM_RECEIVER_SOCKET", get_trace_agent_uds_path env)
        ∷ [];
}

-- `setsid` in the child before it runs the program.
unfoldable pub configure_unix_process : Command → Command
configure_unix_process cmd = record cmd { new_session = true }

unfoldable pub command_of : Env → ProcessSpec → Command
unfolding configure_trace_agent_command configure_unix_process
command_of env spec =
    let base : Command = record {
      program = spec.program;
      args = spec.args;
      env = [];
      stdin = null;
      stdout = null;
      stderr = null;
      new_session = false;
    } in
    let cmd = if is_trace_agent spec then configure_trace_agent_command env base else base in
    let out = if child_stdio_inherit env then inherit else null in
    configure_unix_process (record cmd { stdout = out; stderr = out })
