-- ===== src/Skills/Catalog.antt =====
-- The catalog of documents that the semantic search reads (src/backend/skills.ts,
-- `#ensureCatalog`). A write goes to a temporary file that is renamed, and takes effect at once here,
-- or fails and leaves what was there; the temporary file itself is left out.
use chatgpt_web_agent.Base.{
  ℕ, String, ◌<>◌, trim, Bool, true, false, not, ◌&&◌, ◌||◌, Option, none, some, List, [], ◌∷◌,
  length, ◌==◌, nat_eq, is_some, if◌then◌else◌, Result, ok, err,
}
use chatgpt_web_agent.Base.Table.{Table, get, put}
use chatgpt_web_agent.Json.{str, arr, obj, Items, nil, cons, end, field, stringify}
use chatgpt_web_agent.Skills.{Deps, VisibleSkill, join_by}
use chatgpt_web_agent.Skills.Names.{catalog_filename}

abbrev pub schema : String
schema = "chatgpt-web-agent.skills-catalog.v3"

pub record CatalogManifest : Type 0 where
  pub schema_name : String
  pub inventory_hash : String
  pub catalog_hash : String
  pub files : Table String

-- The directory: the manifest, where it can be read, and for each entry whether it is a regular
-- file, with its text.
pub record Folder : Type 0 where
  pub manifest : Option CatalogManifest
  pub entries : Table (Bool × String)

-- How the changes of the directory end: writing and renaming the file of a name, listing the
-- directory, and removing a file.
pub record Disk : Type 0 where
  pub write : String → Result (Unit {0})
  pub read_dir : Result (Unit {0})
  pub remove : String → Result (Unit {0})

abbrev pub regular : Option (Bool × String) → Bool
regular none = false
regular (some (is_file, _)) = is_file

-- `fs.stat(...).then((stat) => stat.isFile(), () => false)`
unfoldable pub is_present : String → Table (Bool × String) → Bool
is_present name entries = regular (get name entries)

unfoldable pub inventory_json : List VisibleSkill → Items
inventory_json [] = nil
inventory_json (s ∷ ss) =
    cons
      (obj (
        field "name" (str s.name) (
          field "description" (str s.description)
            (field "source" (str s.source) (field "skillKey" (str s.skill_key) end)))))
      (inventory_json ss)

-- `inventoryHash`
unfoldable pub inventory_hash_of : Deps → List VisibleSkill → String
inventory_hash_of deps skills = deps.sha256 (stringify (arr (inventory_json skills)))

-- `catalogHash`
unfoldable pub catalog_hash_of : Deps → String → String
catalog_hash_of deps inventory = deps.sha256 (schema <> "\n" <> inventory)

-- `catalogDocument`
unfoldable pub catalog_document : VisibleSkill → String
catalog_document skill = join_by "\n" (
    ("# " <> skill.name)
    ∷ ""
    ∷ trim skill.description
    ∷ ""
    ∷ ("- skillKey: `" <> skill.skill_key <> "`")
    ∷ ("- source: `" <> skill.source <> "`")
    ∷ ""
    ∷ [])

-- `checks.every(Boolean)`
unfoldable pub every_present : Table String → Table (Bool × String) → Bool
every_present [] entries = true
every_present ((name, key) ∷ files) entries = is_present name entries && every_present files entries

-- Whether the manifest is the one of these skills, and its files are there.
unfoldable pub is_current : String → String → ℕ → CatalogManifest → Table (Bool × String) → Bool
is_current inventory catalog count m entries =
    m.schema_name == schema
    && m.inventory_hash == inventory
    && m.catalog_hash == catalog
    && nat_eq (length m.files) count
    && every_present m.files entries

-- What the loop comes to after a write: it goes on, or stops with what was written before.
abbrev pub after_write :
    {A : Type 0}
    → Result (Unit {0})
    → Table (Bool × String)
    → Result A × Table (Bool × String)
    → Result A × Table (Bool × String)
after_write (ok _) before rest = rest
after_write (err e) before rest = (err e, before)

-- The loop that writes the documents.
unfoldable pub write_documents :
    Deps
    → Disk
    → String
    → List VisibleSkill
    → Table String × Table (Bool × String)
    → Result (Table String) × Table (Bool × String)
write_documents deps disk catalog [] (files, entries) = (ok files, entries)
write_documents deps disk catalog (skill ∷ skills) (files, entries) =
    let name = catalog_filename deps skill catalog in
    let rest =
      write_documents deps disk catalog skills
        (put name skill.skill_key files, put name (true, catalog_document skill) entries) in
    after_write (disk.write name) entries rest

-- `name.endsWith('.md')`
unfoldable pub ends_with_md : String → Bool
ends_with_md String.[] = false
ends_with_md (String.◌∷◌ c s) = String.◌∷◌ c s == ".md" || ends_with_md s

unfoldable pub is_stale : Table String → String → Bool → Bool
is_stale files name is_file =
    is_file && ends_with_md name && not (name == ".gitkeep") && not (is_some (get name files))

abbrev pub with_entry :
    String × (Bool × String)
    → Result (Unit {0}) × Table (Bool × String)
    → Result (Unit {0}) × Table (Bool × String)
with_entry entry (r, entries) = (r, entry ∷ entries)

-- The loop that removes what no skill wants any more; it stops where a file cannot be removed.
unfoldable pub drop_stale :
    Disk → Table String → Table (Bool × String) → Result (Unit {0}) × Table (Bool × String)
drop_stale disk files [] = (ok tt, [])
drop_stale disk files ((name, entry) ∷ entries) =
    let rest = drop_stale disk files entries in
    if is_stale files name entry.0
    then after_write (disk.remove name) ((name, entry) ∷ entries) rest
    else with_entry (name, entry) rest

abbrev pub after_manifest :
    Result (Unit {0})
    → Option CatalogManifest
    → CatalogManifest
    → Table (Bool × String)
    → Result CatalogManifest × Folder
after_manifest (err e) before manifest entries =
    (err e, record { manifest = before; entries = entries })
after_manifest (ok _) before manifest entries =
    (ok manifest, record { manifest = some manifest; entries = entries })

-- After the stale files were removed, the manifest is written; `before` is the one that was there.
unfoldable pub write_manifest :
    Disk
    → Option CatalogManifest
    → CatalogManifest
    → Result (Unit {0}) × Table (Bool × String)
    → Result CatalogManifest × Folder
write_manifest disk before manifest (err e, entries) =
    (err e, record { manifest = before; entries = entries })
write_manifest disk before manifest (ok _, entries) =
    after_manifest (disk.write ".manifest.json") before manifest entries

unfoldable pub drop_and_write :
    Disk
    → Option CatalogManifest
    → CatalogManifest
    → Table (Bool × String)
    → Result (Unit {0})
    → Result CatalogManifest × Folder
drop_and_write disk before manifest entries (err e) =
    (err e, record { manifest = before; entries = entries })
drop_and_write disk before manifest entries (ok _) =
    write_manifest disk before manifest (drop_stale disk manifest.files entries)

unfoldable pub rebuilt :
    Disk
    → String
    → String
    → Option CatalogManifest
    → Result (Table String) × Table (Bool × String)
    → Result CatalogManifest × Folder
rebuilt disk inventory catalog before (err e, entries) =
    (err e, record { manifest = before; entries = entries })
rebuilt disk inventory catalog before (ok files, entries) =
    let manifest : CatalogManifest = record {
      schema_name = schema;
      inventory_hash = inventory;
      catalog_hash = catalog;
      files = files;
    } in
    drop_and_write disk before manifest entries disk.read_dir

unfoldable pub rebuild_catalog :
    Deps → Disk → List VisibleSkill → Folder → Result CatalogManifest × Folder
rebuild_catalog deps disk skills folder =
    let inventory = inventory_hash_of deps skills in
    let catalog = catalog_hash_of deps inventory in
    rebuilt disk inventory catalog folder.manifest
      (write_documents deps disk catalog skills ([], folder.entries))

unfoldable pub ensure_found :
    Deps
    → Disk
    → List VisibleSkill
    → Option CatalogManifest
    → Folder
    → Result CatalogManifest × Folder
ensure_found deps disk skills none folder = rebuild_catalog deps disk skills folder
ensure_found deps disk skills (some existing) folder =
    let inventory = inventory_hash_of deps skills in
    if is_current inventory (catalog_hash_of deps inventory) (length skills) existing folder.entries
    then (ok existing, folder)
    else rebuild_catalog deps disk skills folder

-- `#ensureCatalog` after its `mkdir`
unfoldable pub ensure_catalog :
    Deps → Disk → List VisibleSkill → Folder → Result CatalogManifest × Folder
ensure_catalog deps disk skills folder = ensure_found deps disk skills folder.manifest folder
