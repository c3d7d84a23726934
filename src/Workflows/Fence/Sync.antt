-- ===== src/Workflows/Fence/Sync.antt =====
-- The fence under `synchronizeDeliveryOutcomes`: a task keeps its workspace or gives it up.
use chatgpt_web_agent.Base.{
  true, ◌&&◌, Option, none, some, List, [], ◌∷◌, ◌≡◌, refl, subst, arith, truthy,
}
use chatgpt_web_agent.Base.Table.{Table, get, all}
use chatgpt_web_agent.Base.Table.Laws.{All, all-All-get}
use chatgpt_web_agent.State.{Env, Db, Workflow, WorkflowRun, ProcessWait, OutboxDelivery}
use chatgpt_web_agent.Workflows.Tasks.{occupied, save}
use chatgpt_web_agent.Workflows.Sync.{
  is_queued_task, return_wait, freed_task, withdraw_run, release_run, settle_run, sync_found,
  sync_task, sync_each, synchronize,
}
use chatgpt_web_agent.Workflows.Fence.{
  IsKeyed, Shrinks, Shrinks-refl, Saved, untouched, wrote, Saved-Shrinks, Saved-if, Saved-refl,
  Saved-save,
}

withdraw_run-workflows :
    (env : Env) (task : Workflow) (run : WorkflowRun) (db : Db)
    → (withdraw_run env task run db).workflows ≡ db.workflows
withdraw_run-workflows env task run db = ground arith

return_wait-Saved :
    (env : Env) (task : Workflow) (rows : List OutboxDelivery) (wait : Option ProcessWait) (db : Db)
    → occupied task ≡ true
    → Saved task db.workflows (return_wait env (freed_task task) rows wait db)
unfolding return_wait save
return_wait-Saved env task rows none db h = wrote _ refl refl (λ _. h) refl
return_wait-Saved env task rows (some wait) db h = wrote _ refl refl (λ _. h) refl

module _ (env : Env) (task : Workflow) where
  release_run-Saved :
      (run : WorkflowRun) (rows : List OutboxDelivery) (db : Db)
      → occupied task ≡ true
      → Saved task db.workflows (release_run env task run rows db)
  unfolding release_run
  release_run-Saved run rows db h =
      subst (λ w. Saved task w (release_run env task run rows db))
        (withdraw_run-workflows env task run db)
        (return_wait-Saved env task rows _ (withdraw_run env task run db) h)

  settle_run-Saved :
      (run : WorkflowRun) (rows : List OutboxDelivery) (db : Db)
      → occupied task ≡ true
      → Saved task db.workflows (settle_run env task run rows db)
  unfolding settle_run
  settle_run-Saved run rows db h = search (Saved-if, Saved-save, Saved-refl, release_run-Saved)

  sync_found-Saved :
      (found : Option WorkflowRun) (db : Db)
      → occupied task ≡ true
      → Saved task db.workflows (sync_found env task found db)
  unfolding sync_found
  sync_found-Saved none db h = untouched refl
  sync_found-Saved (some run) db h = search (Saved-if, Saved-refl, settle_run-Saved)

  has_run : truthy task.current_run && is_queued_task task.state ≡ true → occupied task ≡ true
  has_run h = ground arith

  sync_task-Saved : (db : Db) → Saved task db.workflows (sync_task env task db)
  unfolding sync_task
  sync_task-Saved db = search (Saved-if, Saved-refl, sync_found-Saved, has_run)

-- The loop over the tasks as they were at its start.
sync_each-Shrinks :
    (env : Env) (w0 : Table Workflow) (tasks : List Workflow) (db : Db)
    → All (λ t. get t.key w0 ≡ some t) tasks
    → Shrinks w0 db.workflows
    → IsKeyed db.workflows
    → Shrinks w0 (sync_each env tasks db).workflows × IsKeyed (sync_each env tasks db).workflows
unfolding sync_each
sync_each-Shrinks env w0 [] db h s keyed = (s, keyed)
sync_each-Shrinks env w0 (t ∷ ts) db (found, h) s keyed =
    let (s', keyed') =
      Saved-Shrinks w0 db.workflows (sync_task env t db) t s keyed found
        (sync_task-Saved env t db) in
    sync_each-Shrinks env w0 ts (sync_task env t db) h s' keyed'

pub synchronize-Shrinks :
    (env : Env) (db : Db)
    → IsKeyed db.workflows
    → Shrinks db.workflows (synchronize env db).workflows × IsKeyed (synchronize env db).workflows
unfolding synchronize
synchronize-Shrinks env db h =
    sync_each-Shrinks env db.workflows (all db.workflows) db
      (all-All-get (λ t. t.key) db.workflows h.nodup h.keyed) (Shrinks-refl db.workflows) h
