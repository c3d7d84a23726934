-- ===== src/Retention.antt =====
-- The retention of the request ledger (`#prune` of src/request-ledger.ts): what it removes, by age
-- and then by the total size. The directory is a parameter: the log files that it lists, the state
-- of a file when it is looked at again, and whether a file can be removed.
use chatgpt_web_agent.Base.{
  ℕ, ◌+◌, ◌-◌, ◌*◌, ◌≤◌, String, Bool, false, not, ◌&&◌, Option, none, some, List, [], ◌∷◌, opt_eq,
  ltb, leb, if◌then◌else◌, ◌≡◌, ◌⊎◌, inr, refl, arith,
}
use chatgpt_web_agent.Base.Table.{any}

pub record LogFile : Type 0 where
  pub file : String
  pub mtime_ms : ℕ
  pub size : ℕ

pub record Directory : Type 0 where
  pub restat : LogFile → Option LogFile
  pub removable : String → Bool

pub record RetentionConfig : Type 0 where
  pub retention_days : ℕ
  pub max_bytes : ℕ

-- The file that is being written; none at the start of the program.
abbrev pub is_active : Option String → LogFile → Bool
is_active active e = opt_eq (some e.file) active

-- `mtimeMs < nowMs - retentionDays * 24 * 60 * 60 * 1000`
abbrev pub is_old : RetentionConfig → ℕ → LogFile → Bool
is_old config now e = ltb (e.mtime_ms + config.retention_days * 86_400_000) now

-- The files that the first loop removes.
unfoldable pub remove_old :
    Directory → RetentionConfig → Option String → ℕ → List LogFile → List String
remove_old dir config active now [] = []
remove_old dir config active now (e ∷ es) =
    let rest = remove_old dir config active now es in
    if not (is_active active e) && is_old config now e && dir.removable e.file
    then e.file ∷ rest
    else rest

-- The files that are still there.
unfoldable pub restat_all : Directory → List LogFile → List LogFile
restat_all dir [] = []
restat_all dir (e ∷ es) =
    let rest = restat_all dir es in elim (dir.restat e) [ none ↦ rest | some found ↦ found ∷ rest ]

unfoldable pub insert_by_age : LogFile → List LogFile → List LogFile
insert_by_age e [] = e ∷ []
insert_by_age e (f ∷ fs) = if leb e.mtime_ms f.mtime_ms then e ∷ f ∷ fs else f ∷ insert_by_age e fs

unfoldable pub sort_by_age : List LogFile → List LogFile
sort_by_age [] = []
sort_by_age (e ∷ es) = insert_by_age e (sort_by_age es)

unfoldable pub total_size : List LogFile → ℕ
total_size [] = 0
total_size (e ∷ es) = e.size + total_size es

-- The second loop: the files that it removes and the total that it counts afterwards. The total
-- never falls below the sizes of the files that follow, so that no subtraction stops at 0.
unfoldable pub remove_excess : Directory → ℕ → Option String → ℕ → List LogFile → List String × ℕ
remove_excess dir max_bytes active total [] = ([], total)
remove_excess dir max_bytes active total (e ∷ es) =
    let kept = remove_excess dir max_bytes active total es in
    let (removed, left) = remove_excess dir max_bytes active (total - e.size) es in
    if leb total max_bytes
    then ([], total)
    else if is_active active e
    then kept
    else if dir.removable e.file
    then (e.file ∷ removed, left)
    else kept

unfoldable pub prune :
    Directory → RetentionConfig → Option String → ℕ → List LogFile → List String × (List String × ℕ)
prune dir config active now entries =
    let left = sort_by_age (restat_all dir entries) in
    (
      remove_old dir config active now entries,
      remove_excess dir config.max_bytes active (total_size left) left,
    )

-- A file that may be removed.
abbrev pub is_disposable : Directory → Option String → LogFile → Bool
is_disposable dir active e = not (is_active active e) && dir.removable e.file

unfoldable pub disposable : Directory → Option String → List LogFile → List String
disposable dir active [] = []
disposable dir active (e ∷ es) =
    let rest = disposable dir active es in
    if is_disposable dir active e then e.file ∷ rest else rest

module _ (dir : Directory) (max_bytes : ℕ) (active : Option String) where
  -- Within the ceiling, or nothing is left that could be removed.
  abbrev Bounded : List LogFile → List String × ℕ → Type 0
  Bounded es r = (r.1 ≤ max_bytes) ⊎ (r.0 ≡ disposable dir active es)

  remove_excess-Bounded :
      (total : ℕ) (es : List LogFile) → Bounded es (remove_excess dir max_bytes active total es)
  unfolding remove_excess disposable
  remove_excess-Bounded total [] = inr refl
  remove_excess-Bounded total (e ∷ es) =
      ground (arith, remove_excess-Bounded total es, remove_excess-Bounded (total - e.size) es)

  abbrev is_active_name : String → Bool
  is_active_name f = opt_eq (some f) active

  remove_old-keeps :
      (config : RetentionConfig) (now : ℕ) (es : List LogFile)
      → any is_active_name (remove_old dir config active now es) ≡ false
  unfolding remove_old any
  remove_old-keeps config now [] = refl
  remove_old-keeps config now (e ∷ es) = ground (arith, remove_old-keeps config now es)

  remove_excess-keeps :
      (total : ℕ) (es : List LogFile)
      → any is_active_name (remove_excess dir max_bytes active total es).0 ≡ false
  unfolding remove_excess any
  remove_excess-keeps total [] = refl
  remove_excess-keeps total (e ∷ es) =
      ground (arith, remove_excess-keeps total es, remove_excess-keeps (total - e.size) es)

-- Neither loop of the pruning removes the file that is being written. After the second loop the
-- counted total is within the ceiling, or every file found before that loop that is not the active
-- one and can be removed was removed by it.
pub prune-outcome :
    (dir : Directory) (config : RetentionConfig) (active : Option String) (now : ℕ)
    (entries : List LogFile)
    → (any (λ f. opt_eq (some f) active) (prune dir config active now entries).0 ≡ false)
      × (any (λ f. opt_eq (some f) active) (prune dir config active now entries).1.0 ≡ false)
      × (((prune dir config active now entries).1.1 ≤ config.max_bytes)
          ⊎ ((prune dir config active now entries).1.0
              ≡ disposable dir active (sort_by_age (restat_all dir entries))))
unfolding prune
prune-outcome dir config active now entries =
    let left = sort_by_age (restat_all dir entries) in
    (
      remove_old-keeps dir config.max_bytes active config now entries,
      remove_excess-keeps dir config.max_bytes active (total_size left) left,
      remove_excess-Bounded dir config.max_bytes active (total_size left) left,
    )
