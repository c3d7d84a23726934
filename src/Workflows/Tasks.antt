-- ===== src/Workflows/Tasks.antt =====
-- Reading and saving a task, registering and binding it (src/workflows.ts, `task`, `save`,
-- `register`, `bind`).
use chatgpt_web_agent.Base.{
  String, Bool, true, false, not, ◌&&◌, ◌||◌, Option, none, some, List, [], ◌∷◌, Result, ok, err,
  or_raise, ◌>>=◌, ◌==◌, truthy, opt_eq, if◌then◌else◌,
}
use chatgpt_web_agent.Base.Table.{Table, get, put, all, any, select}
use chatgpt_web_agent.State.{Env, Db, Workflow, Role, EventSubscription, supervisor, worker, idle}
use chatgpt_web_agent.Events.{active_subscriptions, unless_wanted}

abbrev pub owner : String
owner = "local-tunnel-user"

unfoldable pub task_of : String → Db → Result Workflow
task_of key db = or_raise (get key db.workflows) "unknown_workflow"

unfoldable pub save : Env → Workflow → Db → Db
save env t db = record db { workflows = put t.key (record t { updated_at = env.now }) db.workflows }

-- `id ? db.get(bucket, id) : undefined`
unfoldable pub deref {ℓ} : {V : Type ℓ} → Option String → Table V → Option V
deref none t = none
deref (some k) t = if k == "" then none else get k t

-- A task that holds its workspace: it has a run, or waits for a process.
abbrev pub occupied : Workflow → Bool
occupied t = truthy t.current_run || truthy t.waiting_for

-- The test that another task holds the workspace of this one.
unfoldable pub workspace_busy : Workflow → Db → Bool
workspace_busy task db =
    truthy task.workspace
    && any (λ t. not (t.key == task.key) && opt_eq t.workspace task.workspace && occupied t)
        (all db.workflows)

abbrev pub role_eq : Role → Role → Bool
role_eq supervisor supervisor = true
role_eq worker worker = true
role_eq _ _ = false

pub record RegisterInput : Type 0 where
  pub key : String
  pub topic : String
  pub role : Role
  pub workspace : Option String
  pub chat_ref : Option String

-- `workspace ? path.resolve(workspace) : undefined`
abbrev pub resolved : Env → Option String → Option String
resolved env none = none
resolved env (some w) = if w == "" then none else some (env.resolve w)

abbrev pub new_task : Env → RegisterInput → Workflow
new_task env i = record {
  key = i.key;
  topic = i.topic;
  role = i.role;
  workspace = resolved env i.workspace;
  subscription_id = none;
  chat_ref = i.chat_ref;
  enabled = true;
  state = idle;
  waiting_for = none;
  revision = 0;
  checkpoint = none;
  summary = none;
  current_run = none;
  updated_at = env.now;
}

abbrev pub same_identity : Env → RegisterInput → Workflow → Bool
same_identity env i old =
    old.topic == i.topic
    && role_eq old.role i.role
    && opt_eq old.workspace (resolved env i.workspace)

unfoldable pub register_over : Env → RegisterInput → Option Workflow → Db → Result (Workflow × Db)
register_over env i (some old) db =
    if same_identity env i old then ok (old, db) else err "workflow_identity_conflict"
register_over env i none db = ok (new_task env i, save env (new_task env i) db)

unfoldable pub register : Env → RegisterInput → Db → Result (Workflow × Db)
register env i db = register_over env i (get i.key db.workflows) db

-- The only subscription that fits, or the reason why there is none.
pub data Chosen : Type 0 where
  only : EventSubscription → Chosen
  refused : String → Chosen

unfoldable pub choose : List EventSubscription → Chosen
choose [] = refused "no_active_subscription"
choose (s ∷ []) = only s
choose (s ∷ t ∷ r) = refused "ambiguous_subscription"

abbrev bind_to : Env → Option String → Workflow → EventSubscription → Db → Result (Workflow × Db)
bind_to env chat_ref task sub db =
    if truthy task.current_run
      && truthy task.subscription_id
      && not (opt_eq task.subscription_id (some sub.id))
    then err "cannot_rebind_active_workflow"
    else (let task' = record task {
      subscription_id = some sub.id;
      chat_ref = if truthy chat_ref then chat_ref else task.chat_ref;
    } in
        ok (task', save env task' db))

unfoldable pub bind_chosen : Env → Option String → Workflow → Chosen → Db → Result (Workflow × Db)
bind_chosen env chat_ref task (refused reason) db = err reason
bind_chosen env chat_ref task (only sub) db = bind_to env chat_ref task sub db

unfoldable pub bind : Env → String → Option String → Option String → Db → Result (Workflow × Db)
bind env key subscription_id chat_ref db = do
  task ← task_of key db
  bind_chosen env chat_ref task
      (choose (
        select (λ s. unless_wanted subscription_id s.id)
          (active_subscriptions env task.topic owner db)))
      db
