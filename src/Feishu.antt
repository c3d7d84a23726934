-- ===== src/Feishu.antt =====
-- The Feishu backend (src/backend/feishu.ts): accounts, targets and what it asks of the gateway. The
-- gateway, the files and the paths are a parameter; a reply of the gateway is a JSON object.
pub mod Mentions
pub mod Escaping
pub mod Message
pub mod Entries
pub mod Directory
pub mod Safety
pub mod Sendable
pub mod Requests
use Prim.Native.Char.{code}
use chatgpt_web_agent.Base.{
  ℕ, String, ◌<>◌, trim, Bool, true, false, not, ◌&&◌, ◌||◌, Option, none, some, List, [], ◌∷◌,
  ◌==◌, leb, nat_eq, starts_with, if◌then◌else◌, Result, ok, err, raise_if, ◌>>=◌, ◌>>◌,
}
use chatgpt_web_agent.Json.{
  Json, bool, str, arr, obj, Items, Fields, field, end, lookup_field, stringify,
}
use chatgpt_web_agent.Config.{FeishuConfig}
use chatgpt_web_agent.Tools.{Paths, is_inside}

-- `FeishuAccountStatus`, with the fields of its probe; `configured` and `probe_ok` tell whether the
-- field is `true`.
pub record Account : Type 0 where
  pub account_id : String
  pub name : Option String
  pub enabled : Option Bool
  pub configured : Bool
  pub running : Option Bool
  pub connected : Option Bool
  pub probe_ok : Bool
  pub bot_name : Option String
  pub bot_open_id : Option String

-- `FeishuBackendDeps`, and what the backend uses of Node: `realpath`, whether `stat` finds a regular
-- file, the paths, and `toLowerCase`.
pub record Deps : Type 0 where
  pub get_account_status : Result (Option Account)
  pub get_bot_account_statuses : Result (List Account)
  pub request_action : String → Fields → Result Fields
  pub path : Paths
  pub resolve_alone : String → String
  pub realpath : String → Result String
  pub is_file : String → Result Bool
  pub to_lower_case : String → String

-- The calls of `requestAction` (each is one `message.action` request of the gateway; asking for the
-- accounts is not among them), and what the tool returns or throws.
abbrev pub Called : Type 0
Called = List (String × Fields) × Result Fields

-- The parameters of the `message.action` request by which `requestAction` asks the gateway
-- (`createDefaultDeps`); the random key is given.
unfoldable pub message_action : FeishuConfig → String → String × Fields → Fields
message_action config uuid (action, params) = field "channel" (str "feishu") (
    field "action" (str action) (
      field "params" (obj params) (
        field "accountId" (str config.account_id)
          (field "agentId" (str config.agent_id) (field "idempotencyKey" (str uuid) end)))))

-- `[A-Za-z0-9_-]`
unfoldable pub is_id_code : ℕ → Bool
is_id_code n =
    (leb 65 n && leb n 90)
    || (leb 97 n && leb n 122)
    || (leb 48 n && leb n 57)
    || nat_eq n 95
    || nat_eq n 45

unfoldable pub all_id_codes : String → Bool
all_id_codes String.[] = true
all_id_codes (String.◌∷◌ c s) = is_id_code (code c) && all_id_codes s

-- `[A-Za-z0-9_-]+`
unfoldable pub is_id : String → Bool
is_id s = not (s == "") && all_id_codes s

-- What follows a prefix, the prefix first.
unfoldable pub after_prefix : String → String → Option String
after_prefix String.[] s = some s
after_prefix (String.◌∷◌ c p) String.[] = none
after_prefix (String.◌∷◌ c p) (String.◌∷◌ d s) =
    let rest = after_prefix p s in if nat_eq (code c) (code d) then rest else none

abbrev pub is_id_after : Option String → Bool
is_id_after none = false
is_id_after (some s) = is_id s

-- `FEISHU_OPEN_ID_RE`
unfoldable pub is_open_id : String → Bool
is_open_id s = is_id_after (after_prefix "ou_" s)

-- `FEISHU_TARGET_RE`
unfoldable pub is_target : String → Bool
is_target s = is_id_after (after_prefix "chat:oc_" s) || is_id_after (after_prefix "user:ou_" s)

-- `validateTarget`
unfoldable pub validate_target : String → Result String
validate_target target =
    raise_if (not (is_target target))
      "target must be an explicit Feishu target: chat:oc_... or user:ou_..."
    >> ok target

unfoldable pub chat_of : Option String → Result String
chat_of (some s) =
    if is_id s
    then ok ("oc_" <> s)
    else err "target must be an explicit Feishu group target: chat:oc_..."
chat_of none = err "target must be an explicit Feishu group target: chat:oc_..."

-- `validateChatTarget`
unfoldable pub validate_chat_target : String → Result String
validate_chat_target target = chat_of (after_prefix "chat:oc_" target)

abbrev pub is_off : Option Bool → Bool
is_off (some false) = true
is_off _ = false

unfoldable pub not_there : FeishuConfig → String
not_there config =
    "fixed Feishu account \"" <> config.account_id
    <> "\" is not configured; refusing to fall back to another account"

-- `#assertFixedIdentityAccount`
unfoldable pub assert_fixed_identity_account : FeishuConfig → Option Account → Result (Unit {0})
assert_fixed_identity_account config none = err (not_there config)
assert_fixed_identity_account config (some account) =
    raise_if (not (account.account_id == config.account_id)) (not_there config)
    >> (raise_if (not account.configured)
          ("fixed Feishu account \"" <> config.account_id <> "\" is present but not configured")
        >> raise_if (is_off account.enabled)
            ("fixed Feishu account \"" <> config.account_id <> "\" is disabled"))

-- `#assertFixedIdentity`
unfoldable pub assert_fixed_identity : FeishuConfig → Deps → Result (Unit {0})
assert_fixed_identity config deps = deps.get_account_status >>= assert_fixed_identity_account config

-- `actionErrorMessage`
unfoldable pub action_error_message : Fields → String
action_error_message result = elim (lookup_field "error" result) [
  | str e ↦ if trim e == "" then "OpenClaw Feishu action failed" else trim e
  | obj fs ↦ stringify (obj fs)
  | arr xs ↦ stringify (arr xs)
  | _ ↦ "OpenClaw Feishu action failed"
]

abbrev is_false : Json → Bool
is_false (bool false) = true
is_false _ = false

-- The reply of an action, unless its `ok` is `false`.
unfoldable pub accepted : Result Fields → Result Fields
accepted reply = do
  result ← reply
  raise_if (is_false (lookup_field "ok" result)) (action_error_message result)
  ok result

-- Where only the media root is allowed, the real file is inside the real root.
unfoldable pub inside_real_root : FeishuConfig → Deps → String → Result String
inside_real_root config deps real_file = do
  real_root ← deps.realpath config.media_root
  raise_if (not (is_inside deps.path real_root real_file))
      ("mediaPath resolves outside Feishu media root: " <> config.media_root)
  ok real_file

-- The path that is asked for, below the media root unless it is absolute.
unfoldable pub requested_path : FeishuConfig → Deps → String → String
requested_path config deps raw_path =
    if deps.path.is_absolute raw_path
    then deps.resolve_alone raw_path
    else deps.path.resolve config.media_root raw_path

-- `resolveMediaPath`
unfoldable pub resolve_media_path : FeishuConfig → Deps → String → Result String
resolve_media_path config deps raw_path = do
  let requested = requested_path config deps raw_path
  raise_if (config.media_root_only && not (is_inside deps.path config.media_root requested))
      ("mediaPath must stay inside Feishu media root: " <> config.media_root)
  real_file ← deps.realpath requested
  regular ← deps.is_file requested
  raise_if (not regular) ("mediaPath must point to a regular file: " <> requested)
  if config.media_root_only then inside_real_root config deps real_file else ok real_file
