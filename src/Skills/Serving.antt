-- ===== src/Skills/Serving.antt =====
-- That the catalog which a search is answered with is there (src/backend/skills.ts,
-- `#ensureCatalog`).
use chatgpt_web_agent.Base.{String, Bool, true, false, List, is_some, Result, ok, err, ◌≡◌, ◌⊎◌}
use chatgpt_web_agent.Base.Table.{Table, get}
use chatgpt_web_agent.Skills.{Deps, VisibleSkill}
use chatgpt_web_agent.Skills.Catalog.{CatalogManifest, Folder, inventory_hash_of, is_present}

-- Of a catalog: it could not be made, or its manifest is the one of the skills, and the named file
-- is there if it is listed.
abbrev Serves : Deps → List VisibleSkill → String → Result CatalogManifest × Folder → Type 0
Serves deps skills name (err e, folder) = Unit
Serves deps skills name (ok m, folder) =
    (m.inventory_hash ≡ inventory_hash_of deps skills)
    × ((is_some (get name m.files) ≡ false) ⊎ (is_present name folder.entries ≡ true))

-- Where the loop has not failed, the files that are wanted are still there.
abbrev Stayed : String → Result (Unit {0}) × Table (Bool × String) → Type 0
Stayed name (err e, entries) = Unit
Stayed name (ok _, entries) = is_present name entries ≡ true

-- Where every document was written, what is listed is there.
abbrev Written : String → Result (Table String) × Table (Bool × String) → Type 0
Written name (err e, entries) = Unit
Written name (ok files, entries) =
    (is_some (get name files) ≡ false) ⊎ (is_present name entries ≡ true)
