-- ===== src/Logging.antt =====
-- logging.rs: the log levels, and the lines that are printed without the feature `log`. The level is
-- read from the environment once; it is a function of it here.
use libagent.Base.{
  ℕ, ◌≡◌, refl, ◌∙◌, ◌≢◌, inl, inr, Bool, true, false, ◌||◌, Option, none, some, ◌++◌, arith, leb,
  if◌then◌else◌, Bool-cases,
}
use libagent.Text.{Bytes, codes, bytes_eq, to_ascii_lowercase}
use libagent.Text.Spaces.{trim}
use libagent.Config.{Var, present, not_present, not_unicode, Env}

pub data LogLevel : Type 0 where
  error warn info debug : LogLevel

-- The order that is derived from the order of the variants.
unfoldable pub rank : LogLevel → ℕ
rank error = 0
rank warn = 1
rank info = 2
rank debug = 3

unfoldable pub debug_of : Var → Bool
unfolding bytes_eq trim to_ascii_lowercase
debug_of (present v) = bytes_eq (to_ascii_lowercase (trim v)) (codes "debug")
debug_of not_present = false
debug_of not_unicode = false

unfoldable pub is_debug_enabled : Env → Bool
unfolding debug_of
is_debug_enabled env = debug_of (env (codes "LIBAGENT_LOG"))

unfoldable pub level_of_name : Bytes → LogLevel
unfolding bytes_eq
level_of_name s =
    if bytes_eq s (codes "debug")
    then debug
    else if bytes_eq s (codes "info")
    then info
    else if bytes_eq s (codes "warn") || bytes_eq s (codes "warning")
    then warn
    else error

unfoldable pub level_of : Var → LogLevel
unfolding level_of_name trim to_ascii_lowercase
level_of (present v) = level_of_name (to_ascii_lowercase (trim v))
level_of not_present = error
level_of not_unicode = error

unfoldable pub current_log_level : Env → LogLevel
unfolding is_debug_enabled level_of
current_log_level env =
    if is_debug_enabled env then debug else level_of (env (codes "LIBAGENT_LOG"))

-- `current_log_level() >= level`.
unfoldable pub logs : Env → LogLevel → Bool
unfolding rank current_log_level
logs env level = leb (rank level) (rank (current_log_level env))

unfoldable pub format_log_level : LogLevel → Bytes
format_log_level error = codes "ERROR"
format_log_level warn = codes "WARN"
format_log_level info = codes "INFO"
format_log_level debug = codes "DEBUG"

-- The line, with the timestamp that chrono gives.
unfoldable pub log_line : Bytes → LogLevel → Bytes → Bytes
log_line timestamp level msg =
    timestamp ++ codes " [libagent] [" ++ format_log_level level ++ codes "] " ++ msg

-- What goes to the standard error output, without the feature `log`.
unfoldable pub log_at : Env → Bytes → LogLevel → Bytes → Option Bytes
log_at env timestamp level msg =
    if logs env level then some (log_line timestamp level msg) else none

level_of-debug_of : (v : Var) → level_of v ≡ debug → debug_of v ≡ true
unfolding debug_of level_of level_of_name
level_of-debug_of (present v) h = ground arith
level_of-debug_of not_present h = cc
level_of-debug_of not_unicode h = cc

rank_of_ne_debug : (l : LogLevel) → l ≢ debug → leb (rank debug) (rank l) ≡ false
unfolding rank
rank_of_ne_debug error h = refl
rank_of_ne_debug warn h = refl
rank_of_ne_debug info h = refl
rank_of_ne_debug debug h = absurd (h refl)

logs_lem :
    (env : Env)
    → logs env debug
      ≡ leb
          (rank debug)
          (rank (if is_debug_enabled env then debug else level_of (env (codes "LIBAGENT_LOG"))))
unfolding logs
logs_lem env = refl

is_debug_enabled_lem : (env : Env) → is_debug_enabled env ≡ debug_of (env (codes "LIBAGENT_LOG"))
unfolding is_debug_enabled
is_debug_enabled_lem env = refl

-- The two readings of the variable agree: debug messages are printed exactly if debugging is enabled.
pub logs-debug : (env : Env) → logs env debug ≡ is_debug_enabled env
logs-debug env = logs_lem env ∙ elim (Bool-cases (is_debug_enabled env)) [
  | inl e ↦ rw e (unfold rank in refl)
  | inr e ↦ rw (
    e,
    rank_of_ne_debug (level_of (env (codes "LIBAGENT_LOG"))) (λ same.
        cc (is_debug_enabled_lem env ∙ level_of-debug_of (env (codes "LIBAGENT_LOG")) same, e)),
  )
]
