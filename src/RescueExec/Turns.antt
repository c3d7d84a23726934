-- ===== src/RescueExec/Turns.antt =====
-- How many commands run at a time, over all calls of one backend (src/backend/rescue-exec.ts).
use chatgpt_web_agent.Base.{
  ◌≤◌, String, Bool, true, false, not, List, [], ◌∷◌, ◌++◌, length, nat_eq, ◌==◌, if-cases, ◌≡◌,
  refl, arith,
}
use chatgpt_web_agent.Json.{Fields}
use chatgpt_web_agent.RescueExec.{
  tool_name, unexpected_args, Config, World, Job, Begun, refused, started, begin_call,
}
use chatgpt_web_agent.RescueExec.Calls.{Admits, rejects, starts, args-Admits}

-- The calls of one backend: `#running`, and the commands that `#execute` has not yet settled.
pub record Calls : Type 0 where
  pub running : Bool
  pub live : List Job

abbrev live_after : Begun → List Job → List Job
live_after (refused _) live = live
live_after (started job) live = job ∷ live

unfoldable pub after_call : Begun × Bool → Calls → Calls
after_call (begun, running) s = record { running = running; live = live_after begun s.live }

-- A call begins, or an execution ends and the call's `finally` runs.
pub data Step (config : Config) : Calls → Calls → Type 0 where
  call :
      (s : Calls) (world : World) (name : String) (args : Fields)
      → Step config s (after_call (begin_call config world name args s.running) s)
  finish :
      (s : Calls) (before after : List Job) (job : Job)
      → s.live ≡ before ++ (job ∷ after)
      → Step config s (record { running = false; live = before ++ after })

pub data Reachable (config : Config) : Calls → Type 0 where
  here : Reachable config (record { running = false; live = [] })
  next : {s t : Calls} → Reachable config s → Step config s t → Reachable config t

-- The flag tells whether a command is live, and one at most is.
data Single : Calls → Type 0 where
  idle : Single (record { running = false; live = [] })
  busy : (job : Job) → Single (record { running = true; live = job ∷ [] })

call-Single :
    (config : Config) (world : World) (args : Fields) (r : Begun × Bool)
    → Admits config world args r
    → Single (after_call r (record { running = false; live = [] }))
unfolding after_call
call-Single config world args _ rejects = idle
call-Single config world args _ (starts {job} _) = busy job

idle-call :
    (config : Config) (world : World) (name : String) (args : Fields)
    → Single (
        after_call
          (begin_call config world name args false)
          (record { running = false; live = [] }))
unfolding begin_call
idle-call config world name args =
    if-cases (λ r. Single (after_call r (record { running = false; live = [] })))
      (not (name == tool_name)) _ _ (λ _. call-Single config world args _ rejects)
      λ _. call-Single config world args _ (args-Admits config world args (unexpected_args args))

busy-call :
    (config : Config) (world : World) (name : String) (args : Fields) (job : Job)
    → Single (
        after_call
          (begin_call config world name args true)
          (record { running = true; live = job ∷ [] }))
unfolding begin_call after_call
busy-call config world name args job =
    if-cases (λ r. Single (after_call r (record { running = true; live = job ∷ [] })))
      (not (name == tool_name)) _ _ (λ _. busy job) λ _. busy job

one-split :
    (a job : Job) (before after : List Job)
    → a ∷ [] ≡ before ++ (job ∷ after)
    → before ++ after ≡ []
one-split a job [] [] e = refl
one-split a job [] (b ∷ after) e = absurd (cc e)
one-split a job (b ∷ []) after e = absurd (cc e)
one-split a job (b ∷ c ∷ before) after e = absurd (cc e)

none-split : (job : Job) (before after : List Job) → [] ≡ before ++ (job ∷ after) → ⊥
none-split job [] after e = cc e
none-split job (b ∷ before) after e = cc e

step-Single : (config : Config) {s t : Calls} → Step config s t → Single s → Single t
step-Single config (call _ world name args) idle = idle-call config world name args
step-Single config (call _ world name args) (busy job) = busy-call config world name args job
step-Single config (finish _ before after job e) idle = absurd (none-split job before after e)
step-Single config (finish _ before after job e) (busy a) = rw (one-split a job before after e) idle

Reachable-Single : (config : Config) {s : Calls} → Reachable config s → Single s
Reachable-Single config here = idle
Reachable-Single config (next r st) = step-Single config st (Reachable-Single config r)

-- Whatever calls are made and whenever their commands end, at most one command runs at a time, and
-- `#running` is set exactly while one does.
pub calls-Reachable :
    (config : Config) (s : Calls)
    → Reachable config s
    → (length s.live ≤ 1) × (s.running ≡ nat_eq (length s.live) 1)
calls-Reachable config s r = single s (Reachable-Single config r)
  where
    single : (s : Calls) → Single s → (length s.live ≤ 1) × (s.running ≡ nat_eq (length s.live) 1)
    single _ idle = (omega arith, refl)
    single _ (busy job) = (omega arith, refl)
