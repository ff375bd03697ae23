-- ===== src/Config/Library.antt =====
-- config.rs: `get_library_directory` in the two builds, and the folders in which the trace agent is
-- looked for. The loader's calls, the path of the executable and `Path::parent` are parameters.
use libagent.Base.{
  ℕ, ◌≡◌, refl, ap, ◌∙◌, Bool, false, ◌&&◌, Option, none, some, List, [], ltb, if◌then◌else◌, take,
}
use libagent.Text.{Bytes, codes}
use libagent.Text.Utf8.{is_utf8}
use libagent.Config.{
  Env, not_present, Places, join, candidate, first_existing, search_program,
  get_trace_agent_program, trace_agent_program,
}

-- `Path::parent`, `current_exe`, if it is `Ok`, and `Path::exists`.
pub record Paths : Type 0 where
  pub parent : Bytes → Option Bytes
  pub current_exe : Option Bytes
  pub exists : Bytes → Bool

abbrev pub parent_of : Paths → Option Bytes → Option Bytes
parent_of paths none = none
parent_of paths (some path) = paths.parent path

-- What `dladdr` says of the function's own address: `none` if it returned 0, and `some none` if the
-- name that it gave is null.
abbrev pub DlInfo : Type 0
DlInfo = Option (Option Bytes)

-- The Unix build.
unfoldable pub get_library_directory_unix : Paths → DlInfo → Option Bytes
get_library_directory_unix paths none = none
get_library_directory_unix paths (some none) = none
get_library_directory_unix paths (some (some fname)) =
    if is_utf8 fname then paths.parent fname else none

abbrev pub max_path : ℕ
max_path = 260

-- `GetModuleHandleExW`, if it returned a handle; `GetModuleFileNameW`, which gives a length and fills a
-- buffer of UTF-16 units; and `String::from_utf16_lossy`.
pub record Modules : Type 0 where
  pub module_handle : Option ℕ
  pub module_file_name : ℕ → ℕ → ℕ × List ℕ
  pub from_utf16_lossy : List ℕ → Bytes

-- A name that is empty or fills the buffer, and so may be cut off, is not used.
abbrev pub file_name_of : Paths → Modules → ℕ × List ℕ → Option Bytes
file_name_of paths modules (len, buffer) =
    if ltb 0 len && ltb len max_path
    then paths.parent (modules.from_utf16_lossy (take len buffer))
    else none

-- The Windows build.
abbrev pub module_directory : Paths → Modules → Option ℕ → Option Bytes
module_directory paths modules none = none
module_directory paths modules (some h) =
    file_name_of paths modules (modules.module_file_name h max_path)

unfoldable pub get_library_directory_windows : Paths → Modules → Option Bytes
get_library_directory_windows paths modules = module_directory paths modules modules.module_handle

-- The folders that `get_trace_agent_program` looks in.
unfoldable pub places_of : Paths → Option Bytes → Places
places_of paths library_dir = record {
  library_dir = library_dir;
  exe_dir = parent_of paths paths.current_exe;
  exists = paths.exists;
}

-- The program stands in the folder, and its path is a `str`.
abbrev pub stands_in : Paths → Option Bytes → Bool
stands_in paths none = false
stands_in paths (some dir) =
    paths.exists (join dir trace_agent_program) && is_utf8 (join dir trace_agent_program)

abbrev pub path_in : Option Bytes → Bytes
path_in none = trace_agent_program
path_in (some dir) = join dir trace_agent_program

first_existing-candidate :
    (paths : Paths) (dir : Option Bytes) (more : List Bytes)
    → first_existing paths.exists (candidate dir more)
      ≡ (if stands_in paths dir then path_in dir else first_existing paths.exists more)
unfolding first_existing
first_existing-candidate paths none more = refl
first_existing-candidate paths (some dir) more = refl

-- Without an override the program is the one beside the library, or else the one beside the
-- executable, or else the bare name, which the system looks for.
pub get_trace_agent_program_found :
    (paths : Paths) (library_dir : Option Bytes) (env : Env)
    → env (codes "LIBAGENT_TRACE_AGENT_PROGRAM") ≡ not_present
    → get_trace_agent_program (places_of paths library_dir) env ≡ (
        if stands_in paths library_dir
        then path_in library_dir
        else if stands_in paths (parent_of paths paths.current_exe)
        then path_in (parent_of paths paths.current_exe)
        else trace_agent_program)
unfolding get_trace_agent_program search_program places_of first_existing
get_trace_agent_program_found paths library_dir env e =
    let exe = parent_of paths paths.current_exe in
    rw (e, get_trace_agent_program)
      (first_existing-candidate paths library_dir (candidate exe [])
        ∙ ap (λ rest. if stands_in paths library_dir then path_in library_dir else rest)
            (first_existing-candidate paths exe []))
