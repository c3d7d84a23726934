-- ===== src/RescueExec.antt =====
-- `rescue_exec` (src/backend/rescue-exec.ts): the call, its arguments and its environment. This file
-- has what runs before the command is started; RescueExec/Run.antt has the command's events. The
-- number of seconds of a timeout is an integer here.
pub mod Run
pub mod Output
pub mod Settling
pub mod Verdict
pub mod Environment
pub mod Calls
pub mod Turns
use chatgpt_web_agent.Base.{
  ℕ, String, ◌<>◌, is_blank, starts_with, Bool, true, false, not, ◌&&◌, ◌||◌, Option, none, some,
  List, [], ◌∷◌, ◌==◌, ltb, nat_eq, if◌then◌else◌, Result, ok, err, raise_if, ◌>>=◌, ◌>>◌,
}
use chatgpt_web_agent.Base.Table.{Table, put, any}
use chatgpt_web_agent.Json.{
  Json, undefined, num, str, obj, Fields, end, field, lookup_field, code_units,
}
use chatgpt_web_agent.Tools.{Units, Paths, resolve_tool_workdir}

abbrev pub tool_name : String
tool_name = "rescue_exec"

abbrev pub default_timeout_seconds : ℕ
default_timeout_seconds = 15

abbrev pub max_timeout_seconds : ℕ
max_timeout_seconds = 60

abbrev pub safe_inherited_env : List String
safe_inherited_env =
    "PATH" ∷ "HOME" ∷ "USER" ∷ "LOGNAME" ∷ "SHELL" ∷ "LANG" ∷ "LANGUAGE" ∷ "TZ" ∷ "TMPDIR"
    ∷ "XDG_RUNTIME_DIR" ∷ "XDG_CONFIG_HOME" ∷ "XDG_CACHE_HOME" ∷ "XDG_STATE_HOME" ∷ "XDG_DATA_HOME"
    ∷ "XDG_DATA_DIRS" ∷ "DBUS_SESSION_BUS_ADDRESS" ∷ []

unfoldable pub is_safe : String → Bool
is_safe key = any (λ k. k == key) safe_inherited_env || starts_with "LC_" key

-- `env[key] = value` for each entry that is defined and safe
unfoldable pub inherit : Table (Option String) → Table String → Table String
inherit [] env = env
inherit ((key, none) ∷ source) env = inherit source env
inherit ((key, some value) ∷ source) env =
    inherit source (if is_safe key then put key value env else env)

-- `buildMinimalEnvironment`
unfoldable pub build_minimal_environment : Table (Option String) → Table String
build_minimal_environment source = inherit source []

unfoldable pub parse_entries : Fields → Table String → Result (Table String)
parse_entries end parsed = ok parsed
parse_entries (field key (str entry) fs) parsed = parse_entries fs (put key entry parsed)
parse_entries (field key _ fs) parsed = err ("env." <> key <> " must be a string")

-- `parseEnv`
unfoldable pub parse_env : Json → Result (Table String)
parse_env undefined = ok []
parse_env (obj fs) = parse_entries fs []
parse_env _ = err "env must be an object of string values"

-- `{ ...base, ...extra }`
unfoldable pub spread : Table String → Table String → Table String
spread env [] = env
spread env ((k, v) ∷ extra) = spread (put k v env) extra

-- `parseTimeout`
unfoldable pub parse_timeout : Json → Result ℕ
parse_timeout undefined = ok default_timeout_seconds
parse_timeout (num n) =
    raise_if (nat_eq n 0) "timeout must be a positive number of seconds"
    >> raise_if (ltb max_timeout_seconds n) "timeout must not exceed 60 seconds"
    >> ok n
parse_timeout _ = err "timeout must be a positive number of seconds"

abbrev pub command_of : Json → Result String
command_of (str s) = if is_blank s then err "command must be a non-empty string" else ok s
command_of _ = err "command must be a non-empty string"

abbrev pub requested_workdir : Json → Result (Option String)
requested_workdir undefined = ok none
requested_workdir (str s) = ok (some s)
requested_workdir _ = err "workdir must be a string"

abbrev allowed_arg : String → Bool
allowed_arg k = k == "command" || k == "workdir" || k == "env" || k == "timeout"

-- `Object.keys(args).filter(...)`
unfoldable pub unexpected_args : Fields → List String
unexpected_args end = []
unexpected_args (field k v fs) =
    let rest = unexpected_args fs in if allowed_arg k then rest else k ∷ rest

-- `names.join(', ')`
unfoldable pub join_names : List String → String
join_names [] = ""
join_names (s ∷ []) = s
join_names (s ∷ t ∷ r) = s <> ", " <> join_names (t ∷ r)

pub record Config : Type 0 where
  pub workspace_dir : String
  pub workspace_only : Bool
  pub max_output_chars : ℕ

-- The command that `#execute` is called with.
pub record Job : Type 0 where
  pub command : String
  pub cwd : String
  pub env : Table String
  pub timeout_seconds : ℕ

-- `process.env`, the paths of `node:path`, and whether the call's signal is aborted already.
pub record World : Type 0 where
  pub path : Paths
  pub process_env : Table (Option String)
  pub aborted : Bool

unfoldable pub prepare : Config → World → Fields → Result Job
prepare config world args = do
  command ← command_of (lookup_field "command" args)
  requested ← requested_workdir (lookup_field "workdir" args)
  cwd ←
      resolve_tool_workdir world.path config.workspace_dir requested config.workspace_only tool_name
  timeout_seconds ← parse_timeout (lookup_field "timeout" args)
  extra ← parse_env (lookup_field "env" args)
  ok (record {
    command = command;
    cwd = cwd;
    env = spread (build_minimal_environment world.process_env) extra;
    timeout_seconds = timeout_seconds;
  })

-- What `callTool` comes to before it waits: an error's text, or a command that is executed.
pub data Begun : Type 0 where
  refused : String → Begun
  started : Job → Begun

unfoldable pub begin_prepared : World → Result Job → Begun × Bool
begin_prepared world (err e) = (refused ("rescue_exec failed: " <> e), false)
begin_prepared world (ok job) =
    if world.aborted
    then (refused "rescue_exec aborted before start", false)
    else (started job, true)

unfoldable pub begin_args : Config → World → Fields → List String → Begun × Bool
begin_args config world args [] = begin_prepared world (prepare config world args)
begin_args config world args (k ∷ ks) =
    (refused ("rescue_exec does not support: " <> join_names (k ∷ ks)), false)

-- `callTool` up to the call of `#execute`, with `#running` before and after it
unfoldable pub begin_call : Config → World → String → Fields → Bool → Begun × Bool
begin_call config world name args running =
    if not (name == tool_name)
    then (refused ("Tool not available: " <> name), running)
    else if running
    then (
      refused "rescue_exec is already running; V1 allows only one rescue command at a time",
      running,
    )
    else begin_args config world args (unexpected_args args)
