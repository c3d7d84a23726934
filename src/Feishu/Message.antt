-- ===== src/Feishu/Message.antt =====
-- `feishu_message` of src/backend/feishu.ts (`#sendMessage`).
use chatgpt_web_agent.Base.{
  String, ◌<>◌, Bool, true, false, not, ◌&&◌, Option, none, some, List, [], ◌∷◌, ◌==◌, is_some,
  if◌then◌else◌, Result, ok, err, raise_if, or_raise, ◌>>=◌, ◌>>◌,
}
use chatgpt_web_agent.Json.{
  Json, undefined, bool, str, arr, obj, Items, nil, cons, Fields, end, field, lookup_field,
}
use chatgpt_web_agent.Config.{FeishuConfig}
use chatgpt_web_agent.Tools.Arguments.{string_arg, boolean_arg}
use chatgpt_web_agent.Feishu.{
  Deps, Called, validate_target, assert_fixed_identity, accepted, resolve_media_path,
}
use chatgpt_web_agent.Feishu.Mentions.{FeishuMention, parse_mentions, render_mention_prefix}

-- A message that may be sent, with the real path of its media.
pub record Message : Type 0 where
  pub target : String
  pub message : Option String
  pub mentions : List FeishuMention
  pub media_path : Option String
  pub media : Option String
  pub as_voice : Bool

abbrev pub resolve_optional : FeishuConfig → Deps → Option String → Result (Option String)
resolve_optional config deps none = ok none
resolve_optional config deps (some path) =
    resolve_media_path config deps path >>= λ real. ok (some real)

-- Everything that `#sendMessage` does before it asks the gateway to send.
unfoldable pub prepare_message : FeishuConfig → Deps → Fields → Result Message
prepare_message config deps args = do
  given ← string_arg args "target" true
  named ← or_raise given "target is required"
  target ← validate_target named
  message ← string_arg args "message" false
  mentions ← parse_mentions args
  media_path ← string_arg args "mediaPath" false
  as_voice ← boolean_arg args "asVoice" false
  raise_if (not (is_some message) && not (is_some media_path)) "message or mediaPath is required"
  raise_if (as_voice && not (is_some media_path)) "asVoice requires mediaPath"
  assert_fixed_identity config deps
  media ← resolve_optional config deps media_path
  ok (record {
    target = target;
    message = message;
    mentions = mentions;
    media_path = media_path;
    media = media;
    as_voice = as_voice;
  })

abbrev optional : Option String → Json
optional none = undefined
optional (some s) = str s

-- `[mentionPrefix, message].filter(Boolean).join(' ')`
unfoldable pub join_text : String → Option String → String
join_text prefix none = prefix
join_text prefix (some message) = if prefix == "" then message else prefix <> " " <> message

abbrev unless_empty : String → Json
unless_empty s = if s == "" then undefined else str s

abbrev if_true : Bool → Json
if_true true = bool true
if_true false = undefined

-- `actionParams`
unfoldable pub action_params : Message → Fields
action_params m = field "target" (str m.target) (
    field "message" (unless_empty (join_text (render_mention_prefix m.mentions) m.message))
      (field "media" (optional m.media) (field "asVoice" (if_true m.as_voice) end)))

unfoldable pub mentions_json : List FeishuMention → Items
mentions_json [] = nil
mentions_json (m ∷ ms) =
    cons (obj (field "openId" (str m.open_id) (field "name" (optional m.name) end)))
      (mentions_json ms)

abbrev unless_nil : Items → Json
unless_nil nil = undefined
unless_nil items = arr items

abbrev media_json : Option String → Bool → Json
media_json none as_voice = undefined
media_json (some path) as_voice =
    obj (field "path" (str path) (field "asVoice" (bool as_voice) end))

-- `compact`: what the caller is told.
unfoldable pub compact : FeishuConfig → Message → Fields → Fields
compact config m result = field "ok" (bool true) (
    field "channel" (str "feishu") (
      field "sender"
        (obj
          (field "agentId" (str config.agent_id) (field "accountId" (str config.account_id) end)))
        (field "target" (str m.target) (
          field "mentions" (unless_nil (mentions_json m.mentions)) (
            field "media" (media_json m.media_path m.as_voice) (
              field "messageId" (lookup_field "messageId" result) (
                field "chatId" (lookup_field "chatId" result) (
                  field "action" (lookup_field "action" result)
                    (field "receipt" (lookup_field "receipt" result) end)))))))))

abbrev told : FeishuConfig → Message → Result Fields → Result Fields
told config m (err e) = err e
told config m (ok result) = ok (compact config m result)

unfoldable pub send_prepared : FeishuConfig → Deps → Result Message → Called
send_prepared config deps (err e) = ([], err e)
send_prepared config deps (ok m) = (
  ("send", action_params m) ∷ [],
  told config m (accepted (deps.request_action "send" (action_params m))),
)

-- `#sendMessage`
unfoldable pub send_message : FeishuConfig → Deps → Fields → Called
send_message config deps args = send_prepared config deps (prepare_message config deps args)
