-- ===== src/Feishu/Entries.antt =====
-- What the Feishu directory keeps of the gateway's entries (src/backend/feishu.ts, the functions
-- `normalize...`).
use chatgpt_web_agent.Base.{
  ℕ, suc, String, ◌<>◌, trim, starts_with, Bool, true, false, ◌&&◌, ◌||◌, Option, none, some, List,
  [], ◌∷◌, ◌==◌, leb, if◌then◌else◌,
}
use chatgpt_web_agent.Json.{
  Json, undefined, bool, str, arr, obj, Items, nil, cons, Fields, end, field, lookup_field,
}
use chatgpt_web_agent.Skills.{join_by}
use chatgpt_web_agent.Feishu.{Account, Deps, is_open_id}

abbrev text_only : Json → Json
text_only (str s) = str s
text_only _ = undefined

-- The entries that are objects whose text under `key` begins with `prefix`, each written anew.
abbrev wanted : String → Json → Option String
wanted prefix (str id) = if starts_with prefix id then some id else none
wanted prefix _ = none

abbrev add_item : Option Json → Items → Items
add_item none items = items
add_item (some v) items = cons v items

abbrev write_entry : (String → Fields → Json) → Fields → Option String → Option Json
write_entry write entry none = none
write_entry write entry (some id) = some (write id entry)

abbrev one_entry : String → String → (String → Fields → Json) → Json → Option Json
one_entry key prefix write (obj entry) =
    write_entry write entry (wanted prefix (lookup_field key entry))
one_entry key prefix write _ = none

unfoldable pub keep_entries : String → String → (String → Fields → Json) → Items → Items
keep_entries key prefix write nil = nil
keep_entries key prefix write (cons entry entries) =
    add_item (one_entry key prefix write entry) (keep_entries key prefix write entries)

abbrev items_of : Json → Items
items_of (arr items) = items
items_of _ = nil

unfoldable pub group_entry : String → Fields → Json
group_entry id entry = obj (
    field "id" (str id) (
      field "target" (str ("chat:" <> id))
        (field "name" (text_only (lookup_field "name" entry)) end)))

-- `normalizeGroupEntries`
unfoldable pub normalize_group_entries : Json → Items
normalize_group_entries raw = keep_entries "id" "oc_" group_entry (items_of raw)

-- A person with a mention that is ready for use.
unfoldable pub person : String → Json → Json
person id name = obj (
    field "openId" (str id) (
      field "target" (str ("user:" <> id)) (
        field "mention" (obj (field "openId" (str id) (field "name" name end)))
          (field "name" name end))))

unfoldable pub peer_entry : String → Fields → Json
peer_entry id entry = person id (text_only (lookup_field "name" entry))

-- `normalizePeerEntries`
unfoldable pub normalize_peer_entries : Json → Items
normalize_peer_entries raw = keep_entries "id" "ou_" peer_entry (items_of raw)

abbrev nonempty_text : Json → Json
nonempty_text (str s) = if s == "" then undefined else str s
nonempty_text _ = undefined

unfoldable pub member_entry : String → Fields → Json
member_entry id entry = person id (nonempty_text (lookup_field "name" entry))

abbrev object_or : Fields → Json → Fields
object_or other (obj fs) = fs
object_or other _ = other

abbrev is_more : Json → Bool
is_more (bool b) = b
is_more _ = false

abbrev page_token_of : Json → Json
page_token_of (str s) = if trim s == "" then undefined else str (trim s)
page_token_of _ = undefined

pub record Members : Type 0 where
  pub members : Items
  pub has_more : Bool
  pub page_token : Json

-- `normalizeMembers`
unfoldable pub normalize_members : Fields → Members
normalize_members outer =
    let container = object_or outer (lookup_field "members" outer) in
    record {
      members =
          keep_entries "member_id" "ou_" member_entry (items_of (lookup_field "members" container));
      has_more = is_more (lookup_field "has_more" container);
      page_token = page_token_of (lookup_field "page_token" container);
    }

-- `value?.trim()`, where an empty text counts as missing
abbrev pub trimmed : Option String → Option String
trimmed none = none
trimmed (some s) = if trim s == "" then none else some (trim s)

-- `text.includes(part)`, the part first
unfoldable pub includes : String → String → Bool
includes part String.[] = part == ""
includes part (String.◌∷◌ c s) = starts_with part (String.◌∷◌ c s) || includes part s

abbrev parts : Option String → List String → List String
parts none l = l
parts (some s) l = s ∷ l

unfoldable pub haystack : Account → String → String
haystack a open_id = join_by "\n" (
    parts (if a.account_id == "" then none else some a.account_id)
      (parts (trimmed a.name) (parts (trimmed a.bot_name) (open_id ∷ []))))

abbrev bot_label : Account → Option String → Option String → String
bot_label a (some bot) _ = bot
bot_label a none (some name) = name
bot_label a none none = a.account_id

-- An account that is shown as a bot.
pub record Bot : Type 0 where
  pub account_id : String
  pub open_id : String
  pub name : String
  pub running : Option Bool
  pub connected : Option Bool

abbrev pub not_off : Option Bool → Bool
not_off (some false) = false
not_off _ = true

-- The bot of an account, where its probe has an open id and it fits the query.
unfoldable pub bot_found : Deps → String → Account → Option String → Option Bot
bot_found deps query a none = none
bot_found deps query a (some open_id) =
    if a.configured
      && not_off a.enabled
      && a.probe_ok
      && is_open_id open_id
      && (query == "" || includes query (deps.to_lower_case (haystack a open_id)))
    then some (record {
      account_id = a.account_id;
      open_id = open_id;
      name = bot_label a (trimmed a.bot_name) (trimmed a.name);
      running = a.running;
      connected = a.connected;
    })
    else none

-- One round of the loop: the bot is added, and the loop ends where the limit is reached.
unfoldable pub add_bot : ℕ → ℕ → Option Bot → (ℕ → List Bot) → List Bot
add_bot limit count none rest = rest count
add_bot limit count (some b) rest = b ∷ (if leb limit (suc count) then [] else rest (suc count))

unfoldable pub collect_bots : Deps → String → ℕ → ℕ → List Account → List Bot
collect_bots deps query limit count [] = []
collect_bots deps query limit count (a ∷ accounts) =
    add_bot limit count (bot_found deps query a (trimmed a.bot_open_id))
      λ next. collect_bots deps query limit next accounts

abbrev pub query_text : Deps → Option String → String
query_text deps none = ""
query_text deps (some q) = deps.to_lower_case (trim q)

-- `normalizeBotEntries`
unfoldable pub normalize_bot_entries : Deps → List Account → Option String → ℕ → List Bot
normalize_bot_entries deps accounts query limit =
    collect_bots deps (query_text deps query) limit 0 accounts

abbrev flag : Option Bool → Json
flag none = undefined
flag (some b) = bool b

unfoldable pub bots_json : List Bot → Items
bots_json [] = nil
bots_json (b ∷ bs) =
    cons
      (obj (
        field "accountId" (str b.account_id) (
          field "openId" (str b.open_id) (
            field "name" (str b.name) (
              field "mention" (obj (field "openId" (str b.open_id) (field "name" (str b.name) end)))
                (field "running" (flag b.running) (field "connected" (flag b.connected) end)))))))
      (bots_json bs)
