-- ===== src/RescueExec/Calls.antt =====
-- Which commands `callTool` of src/backend/rescue-exec.ts starts, and with which environment.
use chatgpt_web_agent.Base.{
  ◌≤◌, String, is_blank, Bool, true, false, Option, some, List, [], ◌∷◌, ltb, nat_eq, ◌==◌,
  if-cases, ◌≡◌, refl, subst, inl, inr, ◌⊎◌, arith, Result, Ensures, returns, throws, Ensures-bind,
  Ensures-if, Ensures-then, Bool-cases,
}
use chatgpt_web_agent.Base.Table.{get}
use chatgpt_web_agent.Json.{Json, undefined, null, bool, num, str, arr, obj, Fields, lookup_field}
use chatgpt_web_agent.Tools.{Paths, is_inside, resolve_tool_workdir, workdir_or_here}
use chatgpt_web_agent.RescueExec.{
  tool_name, is_safe, parse_env, parse_timeout, command_of, requested_workdir, unexpected_args,
  Config, World, Job, prepare, Begun, refused, started, begin_prepared, begin_args, begin_call,
  max_timeout_seconds,
}
use chatgpt_web_agent.RescueExec.Environment.{Inherited, Explicit, env-source}

-- What is checked of a command before it is started.
pub record Checked (config : Config) (world : World) (args : Fields) (job : Job) : Type 0 where
  pub not_blank : (lookup_field "command" args ≡ str job.command) × (is_blank job.command ≡ false)
  pub timeout_low : 1 ≤ job.timeout_seconds
  pub timeout_high : job.timeout_seconds ≤ 60
  pub inside :
      (config.workspace_only ≡ false) ⊎ (is_inside world.path config.workspace_dir job.cwd ≡ true)

pub Entries : World → Fields → Job → Type 0
Entries world args job =
    (k v : String)
    → get k job.env ≡ some v
    → Explicit k v (lookup_field "env" args)
      ⊎ ((is_safe k ≡ true) × Inherited k v world.process_env)

timeout-bounds : (value : Json) → Ensures (λ n. (1 ≤ n) × (n ≤ 60)) (parse_timeout value)
unfolding parse_timeout
timeout-bounds undefined = returns (omega arith)
timeout-bounds (num n) = elim (Bool-cases (nat_eq n 0)) [
  | inl z ↦ rw z throws
  | inr z ↦ rw z (elim (Bool-cases (ltb max_timeout_seconds n)) [
    | inl l ↦ rw l throws
    | inr l ↦ rw l (returns (ground arith))
  ])
]
timeout-bounds null = throws
timeout-bounds (bool _) = throws
timeout-bounds (str _) = throws
timeout-bounds (arr _) = throws
timeout-bounds (obj _) = throws

command_of-text :
    (value : Json) → Ensures (λ s. (value ≡ str s) × (is_blank s ≡ false)) (command_of value)
command_of-text (str s) = Ensures-if (is_blank s) _ _ (λ _. throws) λ e. returns (refl, e)
command_of-text undefined = throws
command_of-text null = throws
command_of-text (bool _) = throws
command_of-text (num _) = throws
command_of-text (arr _) = throws
command_of-text (obj _) = throws

workdir-inside :
    (path : Paths) (root : String) (requested : Option String) (only : Bool) (tool : String)
    → Ensures
        (λ cwd. (only ≡ false) ⊎ (is_inside path root cwd ≡ true))
        (resolve_tool_workdir path root requested only tool)
unfolding resolve_tool_workdir
workdir-inside path root requested false tool = returns (inl refl)
workdir-inside path root requested true tool =
    elim (Bool-cases (is_inside path root (path.resolve root (workdir_or_here requested)))) [
      | inl e ↦ rw e (returns (inr e))
      | inr e ↦ rw e throws
    ]

prepare-Checked :
    (config : Config) (world : World) (args : Fields)
    → Ensures
        (λ job. Checked config world args job × Entries world args job)
        (prepare config world args)
unfolding prepare Entries
prepare-Checked config world args =
    Ensures-then (command_of (lookup_field "command" args)) _
      (command_of-text (lookup_field "command" args))
      λ command named.
        Ensures-bind (requested_workdir (lookup_field "workdir" args)) _ λ requested _.
          Ensures-then
            (resolve_tool_workdir world.path config.workspace_dir requested config.workspace_only
              tool_name)
            _
            (workdir-inside world.path config.workspace_dir requested config.workspace_only
              tool_name)
            λ cwd inside.
              Ensures-then (parse_timeout (lookup_field "timeout" args)) _
                (timeout-bounds (lookup_field "timeout" args))
                λ n bounds. Ensures-bind (parse_env (lookup_field "env" args)) _ λ extra e.
                  returns (
                    record {
                      not_blank = named;
                      timeout_low = bounds.0;
                      timeout_high = bounds.1;
                      inside = inside;
                    },
                    λ k v h. env-source k v world.process_env (lookup_field "env" args) extra e h,
                  )

-- Of what `callTool` comes to before it waits, where no command runs.
pub data Admits (config : Config) (world : World) (args : Fields) : Begun × Bool → Type 0 where
  rejects : {e : String} → Admits config world args (refused e, false)
  starts :
      {job : Job}
      → Checked config world args job × Entries world args job
      → Admits config world args (started job, true)

prepared-Admits :
    (config : Config) (world : World) (args : Fields) (r : Result Job)
    → Ensures (λ job. Checked config world args job × Entries world args job) r
    → Admits config world args (begin_prepared world r)
unfolding begin_prepared
prepared-Admits config world args _ (returns h) =
    if-cases (Admits config world args) world.aborted _ _ (λ _. rejects) λ _. starts h
prepared-Admits config world args _ throws = rejects

pub args-Admits :
    (config : Config) (world : World) (args : Fields) (extra : List String)
    → Admits config world args (begin_args config world args extra)
unfolding begin_args
args-Admits config world args [] =
    prepared-Admits config world args _ (prepare-Checked config world args)
args-Admits config world args (k ∷ ks) = rejects

Admits-inv :
    (config : Config) (world : World) (args : Fields) (r : Begun × Bool) (job : Job)
    → Admits config world args r
    → r.0 ≡ started job
    → (r.1 ≡ true) × Checked config world args job × Entries world args job
Admits-inv config world args _ job rejects e = absurd (cc e)
Admits-inv config world args _ job (starts {job = other} h) e =
    let moved : Checked config world args job × Entries world args job =
      subst (λ j. Checked config world args j × Entries world args j) (same e) h in
    (refl, moved.0, moved.1)
  where
    same : {a b : Job} → started a ≡ started b → a ≡ b
    same p = cc

started-inv :
    (config : Config) (world : World) (name : String) (args : Fields) (running : Bool) (job : Job)
    → (begin_call config world name args running).0 ≡ started job
    → (running ≡ false)
      × ((begin_call config world name args running).1 ≡ true)
      × Checked config world args job
      × Entries world args job
unfolding begin_call
started-inv config world name args running job = elim (Bool-cases (name == tool_name)) [
  | inr other ↦ rw other λ e. absurd (cc e)
  | inl same ↦ rw same (elim (Bool-cases running) [
    | inl busy ↦ rw busy λ e. absurd (cc e)
    | inr free ↦ rw free λ e.
        let h : ((begin_args config world args (unexpected_args args)).1 ≡ true)
            × Checked config world args job
            × Entries world args job =
          Admits-inv config world args _ job (args-Admits config world args _) e in
        (refl, h.0, h.1, h.2)
  ])
]

-- A command is started only when none runs, and then it counts as running. Its text is the argument
-- `command` and is not blank, its timeout is from 1 to 60 seconds and, where the service is kept to
-- its workspace, its directory is inside the workspace.
pub begin_call-Checked :
    (config : Config) (world : World) (name : String) (args : Fields) (running : Bool) (job : Job)
    → (begin_call config world name args running).0 ≡ started job
    → (running ≡ false)
      × ((begin_call config world name args running).1 ≡ true)
      × Checked config world args job
begin_call-Checked config world name args running job e =
    let h = started-inv config world name args running job e in (h.0, h.1, h.2)

-- Every variable in the environment of a started command is one that the argument `env` names with
-- this value, or one of the service's own that is on the list of safe names or begins with `LC_`.
pub begin_call-env :
    (config : Config) (world : World) (name : String) (args : Fields) (running : Bool) (job : Job)
    (k v : String)
    → (begin_call config world name args running).0 ≡ started job
    → get k job.env ≡ some v
    → Explicit k v (lookup_field "env" args)
      ⊎ ((is_safe k ≡ true) × Inherited k v world.process_env)
unfolding Entries
begin_call-env config world name args running job k v e h =
    (started-inv config world name args running job e).3 k v h
