-- ===== src/Feishu/Directory.antt =====
-- `feishu_directory` of src/backend/feishu.ts (`#directory`), and the dispatch of the two tools.
use chatgpt_web_agent.Base.{
  ℕ, String, ◌<>◌, true, false, Option, none, some, List, [], ◌∷◌, ◌==◌, is_some, if◌then◌else◌,
  Result, ok, err, raise_if, or_raise, ◌>>=◌, ◌>>◌,
}
use chatgpt_web_agent.Base.Table.{find_first}
use chatgpt_web_agent.Json.{
  Json, undefined, bool, num, str, arr, obj, Items, Fields, end, field, lookup_field, code_units,
}
use chatgpt_web_agent.Config.{FeishuConfig}
use chatgpt_web_agent.Tools.{CallToolResult, text, tool_error, pretty}
use chatgpt_web_agent.Tools.Arguments.{string_arg, integer_arg}
use chatgpt_web_agent.Feishu.{
  Account, Deps, Called, validate_chat_target, assert_fixed_identity, assert_fixed_identity_account,
  accepted,
}
use chatgpt_web_agent.Feishu.Mentions.{items_length}
use chatgpt_web_agent.Feishu.Message.{send_message}
use chatgpt_web_agent.Feishu.Entries.{
  normalize_group_entries, normalize_peer_entries, normalize_members, Members,
  normalize_bot_entries, Bot, bots_json,
}

pub data Kind : Type 0 where
  groups peers members bots : Kind

abbrev pub kind_name : Kind → String
kind_name groups = "groups"
kind_name peers = "peers"
kind_name members = "members"
kind_name bots = "bots"

abbrev kind_named : String → Result Kind
kind_named s =
    if s == "groups"
    then ok groups
    else if s == "peers"
    then ok peers
    else if s == "members"
    then ok members
    else if s == "bots"
    then ok bots
    else err "kind must be one of: groups, peers, members, bots"

-- `enumArg` at `kind`
unfoldable pub kind_arg : Json → Result Kind
kind_arg undefined = ok groups
kind_arg (str s) = kind_named s
kind_arg _ = err "kind must be one of: groups, peers, members, bots"

abbrev default_limit : FeishuConfig → Kind → ℕ
default_limit config bots = config.max_directory_limit
default_limit config _ = config.default_directory_limit

-- What is asked of the directory: its kind, the limit and the query.
pub record Query : Type 0 where
  pub kind : Kind
  pub limit : ℕ
  pub query : Option String

unfoldable pub read_query : FeishuConfig → Fields → Result Query
read_query config args = do
  kind ← kind_arg (lookup_field "kind" args)
  limit ← integer_arg args "limit" (default_limit config kind) 1 config.max_directory_limit
  query ← string_arg args "query" false
  ok (record { kind = kind; limit = limit; query = query })

abbrev optional : Option String → Json
optional none = undefined
optional (some s) = str s

-- The request for the members of a group: the target as it was given, and what is sent.
unfoldable pub prepare_members : FeishuConfig → Deps → Fields → Query → Result (String × Fields)
prepare_members config deps args q = do
  raise_if (is_some q.query)
      "query is not supported for kind=members; filter returned members locally"
  given ← string_arg args "target" true
  target ← or_raise given "target is required"
  chat_id ← validate_chat_target target
  page_token ← string_arg args "pageToken" false
  assert_fixed_identity config deps
  ok (
    target,
    field "chatId" (str chat_id)
        (field "pageSize" (num q.limit) (field "pageToken" (optional page_token) end)),
  )

unfoldable pub members_told : FeishuConfig → String → Members → Fields
members_told config target m = field "kind" (str "members") (
    field "accountId" (str config.account_id) (
      field "target" (str target) (
        field "count" (num (items_length m.members)) (
          field "members" (arr m.members)
            (field "hasMore" (bool m.has_more) (field "pageToken" m.page_token end))))))

-- The arguments that only `members` takes.
unfoldable pub no_member_args : Fields → Result (Unit {0})
no_member_args args = do
  target ← string_arg args "target" false
  raise_if (is_some target) "target is only supported for kind=members"
  page_token ← string_arg args "pageToken" false
  raise_if (is_some page_token) "pageToken is only supported for kind=members"
  ok tt

unfoldable pub entries_told : FeishuConfig → Kind → Items → Fields
entries_told config kind entries = field "kind" (str (kind_name kind)) (
    field "accountId" (str config.account_id)
      (field "count" (num (items_length entries)) (field "entries" (arr entries) end)))

-- The bots, of which the gateway is asked no action.
unfoldable pub find_bots : FeishuConfig → Deps → Fields → Query → Result (List Bot)
find_bots config deps args q = do
  no_member_args args
  accounts ← deps.get_bot_account_statuses
  assert_fixed_identity_account config
      (find_first (λ (a : Account). a.account_id == config.account_id) accounts)
  ok (normalize_bot_entries deps accounts q.query q.limit)

unfoldable pub prepare_list : FeishuConfig → Deps → Fields → Query → Result Fields
prepare_list config deps args q = do
  no_member_args args
  assert_fixed_identity config deps
  ok (
      field "scope" (str (kind_name q.kind))
        (field "limit" (num q.limit) (field "query" (optional q.query) end)))

abbrev listed : Kind → Fields → Items
listed groups result = normalize_group_entries (lookup_field "groups" result)
listed _ result = normalize_peer_entries (lookup_field "peers" result)

abbrev after : {A : Type 0} → Result A → (A → Fields) → Result Fields
after (err e) f = err e
after (ok a) f = ok (f a)

-- A request to the gateway, where it could be prepared.
unfoldable pub ask : Deps → String → Result Fields → (Fields → Fields) → Called
ask deps action (err e) tell = ([], err e)
ask deps action (ok params) tell =
    ((action, params) ∷ [], after (accepted (deps.request_action action params)) tell)

unfoldable pub ask_members : FeishuConfig → Deps → Result (String × Fields) → Called
ask_members config deps (err e) = ([], err e)
ask_members config deps (ok (target, params)) =
    ask deps "member-info" (ok params)
      λ result. members_told config target (normalize_members result)

unfoldable pub by_kind : FeishuConfig → Deps → Fields → Query → Kind → Called
by_kind config deps args q members = ask_members config deps (prepare_members config deps args q)
by_kind config deps args q bots =
    ([], after (find_bots config deps args q) λ found. entries_told config bots (bots_json found))
by_kind config deps args q kind =
    ask deps "channel-list" (prepare_list config deps args q)
      λ result. entries_told config kind (listed kind result)

unfoldable pub directory_query : FeishuConfig → Deps → Fields → Result Query → Called
directory_query config deps args (err e) = ([], err e)
directory_query config deps args (ok q) = by_kind config deps args q q.kind

-- `#directory`
unfoldable pub directory : FeishuConfig → Deps → Fields → Called
directory config deps args = directory_query config deps args (read_query config args)

-- `jsonResult`, or the error of a call that throws
unfoldable pub answer : String → Result Fields → CallToolResult Fields
answer name (err e) = tool_error (code_units (name <> " failed: " <> e))
answer name (ok fields) = record {
  content = text (code_units (pretty "\n" (obj fields))) ∷ [];
  is_error = false;
  structured_content = some fields;
}

abbrev pub answered : String → Called → List (String × Fields) × CallToolResult Fields
answered name (log, r) = (log, answer name r)

-- `callTool`, with the calls of `requestAction`
unfoldable pub call_tool :
    FeishuConfig → Deps → String → Fields → List (String × Fields) × CallToolResult Fields
call_tool config deps name args =
    if name == "feishu_message"
    then answered name (send_message config deps args)
    else if name == "feishu_directory"
    then answered name (directory config deps args)
    else ([], tool_error (code_units ("Tool not available: " <> name)))
