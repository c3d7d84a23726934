-- ===== src/Tests/Backends.antt =====
-- Runs of the skills and the Feishu backends.
use chatgpt_web_agent.Base.{
  ℕ, ◌≤◌, String, ◌==◌, starts_with, Bool, true, false, Option, none, some, List, [], ◌∷◌, length,
  Result, ok, err, ◌≡◌, refl, arith,
}
use chatgpt_web_agent.Json.{
  Json, str, num, bool, arr, obj, nil, cons, Fields, field, end, code_units, lookup_field,
}
use chatgpt_web_agent.Config.{FeishuConfig}
use chatgpt_web_agent.Tools.{Paths, CallToolResult, text, truncate_text}
use chatgpt_web_agent.Skills as S
use chatgpt_web_agent.Skills.{SkillStatusEntry, VisibleSkill}
use chatgpt_web_agent.Skills.Names.{catalog_filename}
use chatgpt_web_agent.Skills.Catalog.{Disk, Folder, CatalogManifest, schema}
use chatgpt_web_agent.Skills.Selection.{select_hits, by_key_of}
use chatgpt_web_agent.Skills.Picking.{Picked, select_hits-Picked}
use chatgpt_web_agent.Skills.Reading.{read_skill, IsRead, read_skill-IsRead}
use chatgpt_web_agent.Feishu.{Account, Deps, message_action}
use chatgpt_web_agent.Feishu.Mentions.{escape_mention_name}
use chatgpt_web_agent.Feishu.Message.{Message, send_message, action_params}
use chatgpt_web_agent.Feishu.Directory.{call_tool}
use chatgpt_web_agent.Feishu.Escaping.{escape_once, escape-once}
use chatgpt_web_agent.Feishu.Safety.{IsFixed}
use chatgpt_web_agent.Feishu.Sendable.{Sendable, send_message-Sendable}
use chatgpt_web_agent.Feishu.Requests.{call_tool-IsFixed}

abbrev entry : SkillStatusEntry
entry = record {
  name = some "Notes";
  description = some "Takes notes";
  source = none;
  skill_key = some "notes";
  file_path = some "/s/notes/SKILL.md";
  eligible = true;
  model_visible = true;
  disabled = false;
}

abbrev skill : VisibleSkill
skill = record {
  name = "Notes";
  description = "Takes notes";
  source = "unknown";
  skill_key = "notes";
  file_path = "/s/notes/SKILL.md";
}

abbrev gateway : S.Deps
gateway = record {
  not_after = λ a b. true;
  to_lower_case = λ s. s;
  sha256 = λ s. "0123456789abcdef";
  basename = λ p. "SKILL.md";
  url_basename = λ u. some "notes.md";
  fetch_status = ok (entry ∷ []);
  stat = λ p. ok (record { is_file = true; size = 12 });
  read_file = λ p. ok "# Notes";
}

select_hits-Picked_example :
    (length (
        select_hits gateway
          (("notes.md", "notes") ∷ [])
          (by_key_of (skill ∷ []))
          2
          0
          []
          (some "qmd://c/notes.md" ∷ some "qmd://c/notes.md" ∷ []))
      ≤ 2)
    × Picked (skill ∷ []) [] (
        select_hits gateway
          (("notes.md", "notes") ∷ [])
          (by_key_of (skill ∷ []))
          2
          0
          []
          (some "qmd://c/notes.md" ∷ some "qmd://c/notes.md" ∷ []))
select_hits-Picked_example =
    select_hits-Picked gateway (("notes.md", "notes") ∷ []) (skill ∷ []) 2
      (some "qmd://c/notes.md" ∷ some "qmd://c/notes.md" ∷ []) (omega arith)

abbrev disk : Disk
disk = record { write = λ name. ok tt; read_dir = ok tt; remove = λ name. ok tt }

-- A directory with a document that no skill wants any more.
abbrev folder : Folder
folder = record { manifest = none; entries = ("old.md", (true, "# Old")) ∷ [] }

abbrev manifest : CatalogManifest
manifest = record {
  schema_name = schema;
  inventory_hash = "0123456789abcdef";
  catalog_hash = "0123456789abcdef";
  files = (catalog_filename gateway skill "0123456789abcdef", "notes") ∷ [];
}

abbrev notes_result : CallToolResult Fields
notes_result = record {
  content = text (truncate_text 100 (code_units "# Notes")) ∷ [];
  is_error = false;
  structured_content = some (
      field "name" (str "Notes") (
        field "skillKey" (str "notes")
          (field "source" (str "unknown") (field "bytes" (num 12) end))));
}

reads : read_skill gateway 1000 100 (field "name" (str "Notes") end) ≡ ok notes_result
unfolding read_skill chatgpt_web_agent.Tools.Arguments.string_arg
    chatgpt_web_agent.Json.lookup_field chatgpt_web_agent.Base.trim
    chatgpt_web_agent.Skills.Reading.only_one chatgpt_web_agent.Skills.Reading.matches_of
    chatgpt_web_agent.Skills.Reading.or_similar chatgpt_web_agent.Base.Table.select S.visible_skills
    S.sort_by_name S.visible_entries S.visible_entry S.insert_by_name
    chatgpt_web_agent.Skills.Reading.is_exact chatgpt_web_agent.Skills.Reading.read_file_of
reads = refl

read_skill-IsRead_example : IsRead gateway 1000 100 (field "name" (str "Notes") end) notes_result
read_skill-IsRead_example =
    read_skill-IsRead gateway 1000 100 (field "name" (str "Notes") end) notes_result reads

escape-once_example : escape_mention_name "a <b> & c" ≡ escape_once "a <b> & c"
escape-once_example = escape-once "a <b> & c"

abbrev bot : Account
bot = record {
  account_id = "bot";
  name = none;
  enabled = none;
  configured = true;
  running = none;
  connected = none;
  probe_ok = true;
  bot_name = none;
  bot_open_id = some "ou_1";
}

abbrev sender : FeishuConfig
sender = record {
  agent_id = "agent";
  account_id = "bot";
  gateway_url = "ws://127.0.0.1:18789";
  gateway_token = none;
  request_timeout_ms = 10_000;
  media_root = "/work";
  media_root_only = true;
  default_directory_limit = 20;
  max_directory_limit = 100;
}

abbrev feishu : Deps
feishu = record {
  get_account_status = ok (some bot);
  get_bot_account_statuses = ok (bot ∷ []);
  request_action = λ action params. ok (field "messageId" (str "om_1") end);
  path = record {
    resolve = λ root p. root;
    relative = λ root p. "";
    is_absolute = starts_with "/";
  };
  resolve_alone = λ p. p;
  realpath = λ p. ok p;
  is_file = λ p. ok true;
  to_lower_case = λ s. s;
}

abbrev greeting : Fields
greeting = field "target" (str "chat:oc_1") (
    field "message" (str "hello")
      (field "mentions" (arr (cons (obj (field "openId" (str "ou_2") end)) nil)) end))

abbrev greeting_message : Message
greeting_message = record {
  target = "chat:oc_1";
  message = some "hello";
  mentions = record { open_id = "ou_2"; name = none } ∷ [];
  media_path = none;
  media = none;
  as_voice = false;
}

sends : (send_message sender feishu greeting).0 ≡ ("send", action_params greeting_message) ∷ []
unfolding send_message chatgpt_web_agent.Feishu.Message.send_prepared
    chatgpt_web_agent.Feishu.Message.prepare_message chatgpt_web_agent.Tools.Arguments.string_arg
    chatgpt_web_agent.Json.lookup_field chatgpt_web_agent.Base.trim
    chatgpt_web_agent.Feishu.validate_target chatgpt_web_agent.Feishu.is_target
    chatgpt_web_agent.Feishu.after_prefix chatgpt_web_agent.Feishu.is_id
    chatgpt_web_agent.Feishu.all_id_codes chatgpt_web_agent.Feishu.is_id_code
    chatgpt_web_agent.Feishu.Mentions.parse_mentions chatgpt_web_agent.Feishu.Mentions.mentions_of
    chatgpt_web_agent.Feishu.Mentions.items_length
    chatgpt_web_agent.Feishu.Mentions.collect_mentions
    chatgpt_web_agent.Feishu.Mentions.parse_mention chatgpt_web_agent.Feishu.is_open_id
    chatgpt_web_agent.Base.is_blank chatgpt_web_agent.Base.is_space starts_with escape_mention_name
    chatgpt_web_agent.Feishu.Mentions.render_mention
    chatgpt_web_agent.Feishu.Mentions.render_mention_prefix
    chatgpt_web_agent.Feishu.Mentions.replace_code action_params
    chatgpt_web_agent.Feishu.Message.compact chatgpt_web_agent.Feishu.Message.join_text
    chatgpt_web_agent.Feishu.Message.mentions_json chatgpt_web_agent.Feishu.accepted
    chatgpt_web_agent.Feishu.action_error_message chatgpt_web_agent.Feishu.assert_fixed_identity
    chatgpt_web_agent.Feishu.assert_fixed_identity_account chatgpt_web_agent.Feishu.inside_real_root
    chatgpt_web_agent.Feishu.not_there chatgpt_web_agent.Feishu.requested_path
    chatgpt_web_agent.Feishu.resolve_media_path chatgpt_web_agent.Json.decimal
    chatgpt_web_agent.Json.decimal_from chatgpt_web_agent.Json.quote
    chatgpt_web_agent.Json.stringify chatgpt_web_agent.Skills.Selection.contains S.join_by
    chatgpt_web_agent.Tools.Arguments.boolean_arg chatgpt_web_agent.Tools.is_inside
sends = refl

send_message-Sendable_example :
    (◌≡◌ {A = List (String × Fields)} [] [])
    × (◌≡◌ {A = String} "send" "send")
    × ((m : Message) × (action_params greeting_message ≡ action_params m)
        × Sendable sender feishu greeting m)
send_message-Sendable_example =
    send_message-Sendable sender feishu greeting "send" (action_params greeting_message) [] sends

call_sends :
    (call_tool sender feishu "feishu_message" greeting).0
    ≡ ("send", action_params greeting_message) ∷ []
unfolding call_tool send_message chatgpt_web_agent.Feishu.Message.send_prepared
    chatgpt_web_agent.Feishu.Message.prepare_message chatgpt_web_agent.Tools.Arguments.string_arg
    chatgpt_web_agent.Json.lookup_field chatgpt_web_agent.Base.trim
    chatgpt_web_agent.Feishu.validate_target chatgpt_web_agent.Feishu.is_target
    chatgpt_web_agent.Feishu.after_prefix chatgpt_web_agent.Feishu.is_id
    chatgpt_web_agent.Feishu.all_id_codes chatgpt_web_agent.Feishu.is_id_code
    chatgpt_web_agent.Feishu.Mentions.parse_mentions chatgpt_web_agent.Feishu.Mentions.mentions_of
    chatgpt_web_agent.Feishu.Mentions.items_length
    chatgpt_web_agent.Feishu.Mentions.collect_mentions
    chatgpt_web_agent.Feishu.Mentions.parse_mention chatgpt_web_agent.Base.Table.find_first
    chatgpt_web_agent.Base.is_blank chatgpt_web_agent.Base.is_space starts_with
    chatgpt_web_agent.Feishu.Directory.answer chatgpt_web_agent.Feishu.Directory.ask
    chatgpt_web_agent.Feishu.Directory.ask_members chatgpt_web_agent.Feishu.Directory.by_kind
    chatgpt_web_agent.Feishu.Directory.directory chatgpt_web_agent.Feishu.Directory.directory_query
    chatgpt_web_agent.Feishu.Directory.entries_told chatgpt_web_agent.Feishu.Directory.find_bots
    chatgpt_web_agent.Feishu.Directory.kind_arg chatgpt_web_agent.Feishu.Directory.members_told
    chatgpt_web_agent.Feishu.Directory.no_member_args
    chatgpt_web_agent.Feishu.Directory.prepare_list
    chatgpt_web_agent.Feishu.Directory.prepare_members chatgpt_web_agent.Feishu.Directory.read_query
    chatgpt_web_agent.Feishu.Entries.add_bot chatgpt_web_agent.Feishu.Entries.bot_found
    chatgpt_web_agent.Feishu.Entries.bots_json chatgpt_web_agent.Feishu.Entries.collect_bots
    chatgpt_web_agent.Feishu.Entries.group_entry chatgpt_web_agent.Feishu.Entries.haystack
    chatgpt_web_agent.Feishu.Entries.includes chatgpt_web_agent.Feishu.Entries.keep_entries
    chatgpt_web_agent.Feishu.Entries.member_entry
    chatgpt_web_agent.Feishu.Entries.normalize_bot_entries
    chatgpt_web_agent.Feishu.Entries.normalize_group_entries
    chatgpt_web_agent.Feishu.Entries.normalize_members
    chatgpt_web_agent.Feishu.Entries.normalize_peer_entries
    chatgpt_web_agent.Feishu.Entries.peer_entry chatgpt_web_agent.Feishu.Entries.person
    escape_mention_name chatgpt_web_agent.Feishu.Mentions.render_mention
    chatgpt_web_agent.Feishu.Mentions.render_mention_prefix
    chatgpt_web_agent.Feishu.Mentions.replace_code action_params
    chatgpt_web_agent.Feishu.Message.compact chatgpt_web_agent.Feishu.Message.join_text
    chatgpt_web_agent.Feishu.Message.mentions_json chatgpt_web_agent.Feishu.accepted
    chatgpt_web_agent.Feishu.action_error_message chatgpt_web_agent.Feishu.assert_fixed_identity
    chatgpt_web_agent.Feishu.assert_fixed_identity_account chatgpt_web_agent.Feishu.chat_of
    chatgpt_web_agent.Feishu.inside_real_root chatgpt_web_agent.Feishu.is_open_id
    chatgpt_web_agent.Feishu.not_there chatgpt_web_agent.Feishu.requested_path
    chatgpt_web_agent.Feishu.resolve_media_path chatgpt_web_agent.Feishu.validate_chat_target
    code_units chatgpt_web_agent.Json.decimal chatgpt_web_agent.Json.decimal_from
    chatgpt_web_agent.Json.quote chatgpt_web_agent.Json.stringify
    chatgpt_web_agent.Skills.Selection.contains S.join_by
    chatgpt_web_agent.Tools.Arguments.boolean_arg chatgpt_web_agent.Tools.Arguments.integer_arg
    chatgpt_web_agent.Tools.is_inside chatgpt_web_agent.Tools.pretty
    chatgpt_web_agent.Tools.tool_error
call_sends = refl

call_tool-IsFixed_example :
    (◌≡◌ {A = List (String × Fields)} [] [])
    × ((who : IsFixed sender feishu) × (lookup_field "accountId"
            (message_action sender "u" ("send", action_params greeting_message))
          ≡ str who.account.account_id))
call_tool-IsFixed_example =
    call_tool-IsFixed sender feishu "feishu_message" "u" greeting
      ("send", action_params greeting_message) [] call_sends
