-- ===== src/Workflows/Fence.antt =====
-- The workspace fence: two tasks of one workspace never hold it together. Here are the predicate
-- and the ways in which a write to the tasks keeps it; the children go through the operations.
pub mod Sync
pub mod Enqueue
pub mod Tasks
pub mod Waits
pub mod Steps
use chatgpt_web_agent.Base.{
  String, Bool, true, false, not, ◌&&◌, ◌||◌, Option, none, some, ◌≡◌, ◌≢◌, ◌⊎◌, inl, inr, refl,
  sym, subst, arith, eq_iff, eq_refl, ◌==◌, truthy, opt_eq, if◌then◌else◌, Result, or_raise,
  Option-cases, ◌>>=◌, Ensures, throws,
}
use chatgpt_web_agent.Base.Table.{Table, get, put, all, any}
use chatgpt_web_agent.Base.Table.Laws.{NodupKeys, put-NodupKeys, get-put, get-put_inv, any-all}
use chatgpt_web_agent.State.{Env, Db, Workflow}
use chatgpt_web_agent.Workflows.Tasks.{occupied, task_of, workspace_busy, save}

-- Each task is stored once, under its own key.
pub record IsKeyed (w : Table Workflow) : Type 0 where
  pub nodup : NodupKeys w
  pub keyed : (k : String) (t : Workflow) → get k w ≡ some t → t.key ≡ k

-- Two tasks that name one workspace and both have a run or a process wait are the same task.
pub record IsFenced (w : Table Workflow) : Type 0 where
  pub is_keyed : IsKeyed w
  pub fence :
      (j k : String) (a b : Workflow)
      → get j w ≡ some a
      → get k w ≡ some b
      → truthy a.workspace ≡ true
      → a.workspace ≡ b.workspace
      → occupied a ≡ true
      → occupied b ≡ true
      → j ≡ k

-- What holds a workspace in `w` held it in `w0`.
abbrev pub Shrinks : Table Workflow → Table Workflow → Type 0
Shrinks w0 w =
    (k : String) (b : Workflow)
    → get k w ≡ some b
    → occupied b ≡ true
    → (a : Workflow) × (get k w0 ≡ some a) × (occupied a ≡ true) × (a.workspace ≡ b.workspace)

pub Shrinks-refl : (w : Table Workflow) → Shrinks w w
Shrinks-refl w k b e h = (b, e, h, refl)

pub Shrinks-trans : (u v w : Table Workflow) → Shrinks u v → Shrinks v w → Shrinks u w
Shrinks-trans u v w uv vw k c e h =
    let (b, eb, hb, sb) = vw k c e h in
    let (a, ea, ha, sa) = uv k b eb hb in (a, ea, ha, cc (sa, sb))

pub IsKeyed-put : (t : Workflow) (w : Table Workflow) → IsKeyed w → IsKeyed (put t.key t w)
IsKeyed-put t w h = record {
  nodup = put-NodupKeys t.key t w h.nodup;
  keyed = λ k u e. ground (arith, get-put t.key k t w, eq_iff t.key k, h.keyed k u);
}

-- A write of a task that holds no workspace which it did not hold.
pub Shrinks-put :
    (w0 w : Table Workflow) (old t : Workflow)
    → Shrinks w0 w
    → get t.key w0 ≡ some old
    → old.workspace ≡ t.workspace
    → (occupied t ≡ true → occupied old ≡ true)
    → Shrinks w0 (put t.key t w)
Shrinks-put w0 w old t h found same held k b e o = elim (get-put_inv t.key k t b w e) [
  | inl (p, q) ↦ (old, rw p at found, held (rw (sym q) at o), rw q at same)
  | inr (_, before) ↦ h k b before o
]

-- A write of a task that holds none.
pub Shrinks-put_free :
    (t : Workflow) (w : Table Workflow) → occupied t ≡ false → Shrinks w (put t.key t w)
Shrinks-put_free t w free k b e o = elim (get-put_inv t.key k t b w e) [
  | inl (p, q) ↦ absurd (cc (q, free, o))
  | inr (_, before) ↦ (b, before, o, refl)
]

pub IsFenced-Shrinks : (w0 w : Table Workflow) → IsFenced w0 → IsKeyed w → Shrinks w0 w → IsFenced w
IsFenced-Shrinks w0 w h keyed s = record {
  is_keyed = keyed;
  fence = λ j k a b ea eb t same oa ob.
      let (a', ea', oa', sa) = s j a ea oa in
      let (b', eb', ob', sb) = s k b eb ob in
      h.fence j k a' b' ea' eb' (rw sa t) (cc (sa, sb, same)) oa' ob';
}

-- The test that refuses a busy workspace.
abbrev pub others_hold : Workflow → Table Workflow → Bool
others_hold t w =
    truthy t.workspace
    && any (λ u. not (u.key == t.key) && opt_eq u.workspace t.workspace && occupied u) (all w)

opt_eq_refl : (o : Option String) → opt_eq o o ≡ true
opt_eq_refl none = refl
opt_eq_refl (some s) = eq_refl s

others_hold_sound :
    (t : Workflow) (w : Table Workflow) (k : String) (b : Workflow)
    → IsKeyed w
    → others_hold t w ≡ false
    → get k w ≡ some b
    → t.key ≢ k
    → truthy t.workspace ≡ true
    → t.workspace ≡ b.workspace
    → occupied b ≡ true
    → ⊥
others_hold_sound t w k b h free e ne tr same o = ground (
  arith,
  any-all (λ u. not (u.key == t.key) && opt_eq u.workspace t.workspace && occupied u) k b w e,
  h.keyed k b e,
  eq_iff b.key t.key,
  opt_eq_refl t.workspace,
)

-- A write of a task whose workspace no other holds.
pub IsFenced-put :
    (t : Workflow) (w : Table Workflow)
    → IsFenced w
    → others_hold t w ≡ false
    → IsFenced (put t.key t w)
IsFenced-put t w h free = record {
  is_keyed = IsKeyed-put t w h.is_keyed;
  fence = λ j k a b ea eb tr same oa ob. elim (get-put_inv t.key j t a w ea) [
    | inl (p, q) ↦ elim (get-put_inv t.key k t b w eb) [
      | inl (p', q') ↦ cc (p, p')
      | inr (ne, before) ↦
          absurd (others_hold_sound t w k b h.is_keyed free before ne (rw q tr) (rw q same) ob)
    ]
    | inr (ne, before) ↦ elim (get-put_inv t.key k t b w eb) [
      | inl (p', q') ↦ absurd (
          others_hold_sound t w j a h.is_keyed free before ne (rw (q', ← same) tr)
            (rw q' (sym same)) oa)
      | inr (ne', before') ↦ h.fence j k a b before before' tr same oa ob
    ]
  ];
}

-- The same, where the tasks are those that were tested.
pub IsFenced-put_over :
    (t : Workflow) (w w' : Table Workflow)
    → w' ≡ w
    → IsFenced w
    → others_hold t w ≡ false
    → IsFenced (put t.key t w')
IsFenced-put_over t w w' e h free = rw e (IsFenced-put t w h free)

-- What one step of an operation does to the tasks `w`: nothing, or it writes one task that holds
-- no workspace which it did not hold.
pub data Saved (task : Workflow) (w : Table Workflow) (db : Db) : Type 0 where
  untouched : db.workflows ≡ w → Saved task w db
  wrote :
      (t : Workflow)
      → t.key ≡ task.key
      → t.workspace ≡ task.workspace
      → (occupied t ≡ true → occupied task ≡ true)
      → db.workflows ≡ put t.key t w
      → Saved task w db

pub Saved-Shrinks :
    (w0 w : Table Workflow) (db : Db) (task : Workflow)
    → Shrinks w0 w
    → IsKeyed w
    → get task.key w0 ≡ some task
    → Saved task w db
    → Shrinks w0 db.workflows × IsKeyed db.workflows
Saved-Shrinks w0 w db task s h found (untouched e) = rw e (s, h)
Saved-Shrinks w0 w db task s h found (wrote t key space held e) =
    rw e (Shrinks-put w0 w task t s (rw key found) (sym space) held, IsKeyed-put t w h)

pub Saved-IsFenced :
    (w : Table Workflow) (db : Db) (task : Workflow)
    → IsFenced w
    → get task.key w ≡ some task
    → Saved task w db
    → IsFenced db.workflows
Saved-IsFenced w db task h found saved =
    let (s, keyed) = Saved-Shrinks w w db task (Shrinks-refl w) h.is_keyed found saved in
    IsFenced-Shrinks w db.workflows h keyed s

pub Saved-if :
    (task : Workflow) (w : Table Workflow) (b : Bool) (x y : Db)
    → (b ≡ true → Saved task w x)
    → (b ≡ false → Saved task w y)
    → Saved task w (if b then x else y)
Saved-if task w true x y p q = p refl
Saved-if task w false x y p q = q refl

pub Saved-refl : (task : Workflow) (db : Db) → Saved task db.workflows db
Saved-refl task db = untouched refl

pub Saved-save :
    (env : Env) (task t : Workflow) (db : Db)
    → t.key ≡ task.key
    → t.workspace ≡ task.workspace
    → (occupied t ≡ true → occupied task ≡ true)
    → Saved task db.workflows (save env t db)
unfolding save
Saved-save env task t db key space held =
    wrote (record t { updated_at = env.now }) key space held (rw key)

-- What an operation needs of the task that it loads.
pub Ensures-task {ℓ κ} :
    {A : Type ℓ} {P : A → Type κ} (key : String) (db : Db) (f : Workflow → Result A)
    → IsKeyed db.workflows
    → ((task : Workflow) → get task.key db.workflows ≡ some task → Ensures P (f task))
    → Ensures P (task_of key db >>= f)
unfolding task_of
Ensures-task key db f h k = elim (Option-cases (get key db.workflows)) [
  | inl e ↦ rw e throws
  | inr (task, e) ↦
      rw e (k task (subst (λ j. get j db.workflows ≡ some task) (sym (h.keyed key task e)) e))
]
