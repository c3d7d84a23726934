-- ===== src/Config/Readers.antt =====
-- How one setting is read (src/config.ts): Booleans, positive integers, lists of names, the token of
-- the gateway and the directories that have a default.
use Prim.Native.Char.{code}
use chatgpt_web_agent.Base.{
  ℕ, ◌+◌, ◌-◌, ◌*◌, ◌%◌, String, ◌<>◌, trim, is_space, Bool, true, false, not, ◌&&◌, ◌||◌, Option,
  none, some, List, [], ◌∷◌, ◌==◌, ltb, leb, nat_eq, get_or_else, if◌then◌else◌, Result, ok, err,
  raise_if, ◌>>=◌, ◌>>◌,
}
use chatgpt_web_agent.Json.{decimal}
use chatgpt_web_agent.Config.{ExecSecurity, deny, allowlist, full, ExecAsk, off, on_miss, always}

abbrev pub Environment : Type 0
Environment = String → Option String

-- What `lstatSync` tells of a file.
pub record Stat : Type 0 where
  pub is_file : Bool
  pub is_symbolic_link : Bool
  pub mode : ℕ

-- `node:path`, `node:fs`, `node:os` and the process
pub record Host : Type 0 where
  pub resolve : String → String
  pub join : List String → String
  pub lstat : String → Result Stat
  pub read_file : String → Result String
  pub is_windows : Bool
  pub uid : Option ℕ  -- `none` where there is no `process.getuid`
  pub tmpdir : String
  pub homedir : String
  pub cwd : String

-- `value?.trim()`, where an empty text counts as nothing
unfoldable pub trimmed : Option String → Option String
trimmed none = none
trimmed (some s) = if trim s == "" then none else some (trim s)

-- `toLowerCase` of the letters of ASCII. No other letter is written as one of the words that the
-- settings are compared with.
unfoldable pub to_lower : String → List ℕ
to_lower String.[] = []
to_lower (String.◌∷◌ c s) =
    (if leb 65 (code c) && leb (code c) 90 then code c + 32 else code c) ∷ to_lower s

unfoldable pub same_codes : List ℕ → List ℕ → Bool
same_codes [] [] = true
same_codes (a ∷ xs) (b ∷ ys) = nat_eq a b && same_codes xs ys
same_codes _ _ = false

abbrev is_word : String → String → Bool
is_word s word = same_codes (to_lower (trim s)) (to_lower word)

-- `readBoolean`
unfoldable pub read_boolean : Option String → Bool → String → Result Bool
read_boolean none fallback name = ok fallback
read_boolean (some s) fallback name =
    if s == ""
    then ok fallback
    else if is_word s "true" || is_word s "1" || is_word s "yes"
    then ok true
    else if is_word s "false" || is_word s "0" || is_word s "no"
    then ok false
    else err (name <> " must be true or false")

-- A whole number with its sign; there is none where `parseInt` gives `NaN`.
pub data Parsed : Type 0 where
  not_a_number : Parsed
  plus minus : ℕ → Parsed

unfoldable pub is_digit : ℕ → Bool
is_digit n = leb 48 n && leb n 57

-- The digits that stand first, after a value read before them.
unfoldable pub digits_value : ℕ → String → ℕ
digits_value n String.[] = n
digits_value n (String.◌∷◌ c s) =
    let rest = digits_value (n * 10 + (code c - 48)) s in if is_digit (code c) then rest else n

unfoldable pub parse_digits : (ℕ → Parsed) → String → Parsed
parse_digits sign String.[] = not_a_number
parse_digits sign (String.◌∷◌ c s) =
    if is_digit (code c) then sign (digits_value 0 (String.◌∷◌ c s)) else not_a_number

unfoldable pub parse_signed : String → Parsed
parse_signed String.[] = not_a_number
parse_signed (String.◌∷◌ c s) =
    if nat_eq (code c) 45
    then parse_digits minus s
    else if nat_eq (code c) 43
    then parse_digits plus s
    else parse_digits plus (String.◌∷◌ c s)

-- `Number.parseInt(value, 10)`
unfoldable pub parse_int : String → Parsed
parse_int String.[] = not_a_number
parse_int (String.◌∷◌ c s) =
    let rest = parse_int s in if is_space (code c) then rest else parse_signed (String.◌∷◌ c s)

abbrev pub max_safe_integer : ℕ
max_safe_integer = 9_007_199_254_740_991

unfoldable pub positive : String → Parsed → Result ℕ
positive value (plus n) =
    if nat_eq n 0 || ltb max_safe_integer n
    then err ("expected a positive integer, received: " <> value)
    else ok n
positive value _ = err ("expected a positive integer, received: " <> value)

-- `readPositiveInteger`
unfoldable pub read_positive_integer : Option String → ℕ → Result ℕ
read_positive_integer none fallback = ok fallback
read_positive_integer (some s) fallback = if s == "" then ok fallback else positive s (parse_int s)

unfoldable pub exec_security_named : String → Result (Option ExecSecurity)
exec_security_named s =
    if s == "deny"
    then ok (some deny)
    else if s == "allowlist"
    then ok (some allowlist)
    else if s == "full"
    then ok (some full)
    else err "CHATGPT_WEB_AGENT_EXEC_SECURITY must be one of: deny, allowlist, full"

unfoldable pub exec_ask_named : String → Result (Option ExecAsk)
exec_ask_named s =
    if s == "off"
    then ok (some off)
    else if s == "on-miss"
    then ok (some on_miss)
    else if s == "always"
    then ok (some always)
    else err "CHATGPT_WEB_AGENT_EXEC_ASK must be one of: off, on-miss, always"

-- `readEnum`, given the reading of a text that is not empty
unfoldable pub read_enum {ℓ} :
    {T : Type ℓ} → Option String → (String → Result (Option T)) → Result (Option T)
read_enum none named = ok none
read_enum (some s) named = if s == "" then ok none else named s

-- `text.split(',')`, with what stands before the first comma so far
unfoldable pub split_from : String → String → List String
split_from part String.[] = part ∷ []
split_from part (String.◌∷◌ c s) =
    let comma = nat_eq (code c) 44 in
    let rest = split_from (if comma then "" else part <> String.◌∷◌ c "") s in
    if comma then part ∷ rest else rest

-- `.map((name) => name.trim()).filter(Boolean)`
unfoldable pub trim_names : List String → List String
trim_names [] = []
trim_names (s ∷ ss) = let rest = trim_names ss in if trim s == "" then rest else trim s ∷ rest

abbrev pub default_tools : String
default_tools = "read,exec,process,apply_patch,rescue_exec"

-- `requestedTools`
unfoldable pub requested_tools : Option String → Result (List String)
requested_tools setting = elim (trim_names (split_from "" (get_or_else setting default_tools))) [
  | [] ↦ err "CHATGPT_WEB_AGENT_TOOLS must contain at least one tool name"
  | name ∷ names ↦ ok (name ∷ names)
]

abbrev token_file : String
token_file = "CHATGPT_WEB_AGENT_GATEWAY_TOKEN_FILE"

-- `(stat.mode & 0o077) !== 0`: the low six bits
unfoldable pub open_to_others : Host → Stat → Bool
open_to_others host stat = not host.is_windows && not (nat_eq (stat.mode % 64) 0)

-- The token in a file that only its owner can read.
unfoldable pub read_token_file : Host → String → Result (Option String)
read_token_file host path = do
  stat ← host.lstat path
  raise_if (not stat.is_file || stat.is_symbolic_link)
      (token_file <> " must be a regular non-symlink file")
  raise_if (open_to_others host stat) (token_file <> " must not be accessible by group or others")
  content ← host.read_file path
  raise_if (trim content == "") (token_file <> " is empty")
  ok (some (trim content))

unfoldable pub token_from : Host → Option String → Option String → Result (Option String)
token_from host (some token) (some file) =
    err "set only one of CHATGPT_WEB_AGENT_GATEWAY_TOKEN or CHATGPT_WEB_AGENT_GATEWAY_TOKEN_FILE"
token_from host (some token) none = ok (some token)
token_from host none none = ok none
token_from host none (some file) = read_token_file host (host.resolve file)

-- `readGatewayToken`
unfoldable pub read_gateway_token : Host → Environment → Result (Option String)
read_gateway_token host env =
    token_from host (trimmed (env "CHATGPT_WEB_AGENT_GATEWAY_TOKEN")) (trimmed (env token_file))

-- `env.NAME?.trim() || fallback`
abbrev pub setting_or : Environment → String → String → String
setting_or env name fallback = get_or_else (trimmed (env name)) fallback

abbrev user_name : Option ℕ → String
user_name none = "user"
user_name (some n) = decimal n

unfoldable pub socket_below : Host → Option String → String
socket_below host (some dir) = host.join (host.resolve dir ∷ "chatgpt-web-agent" ∷ "exec.sock" ∷ [])
socket_below host none =
    host.join (host.tmpdir ∷ ("chatgpt-web-agent-" <> user_name host.uid) ∷ "exec.sock" ∷ [])

-- `defaultExecRuntimeSocket`
unfoldable pub default_exec_runtime_socket : Host → Environment → String
default_exec_runtime_socket host env = socket_below host (trimmed (env "XDG_RUNTIME_DIR"))

unfoldable pub state_below : Host → Option String → String
state_below host (some dir) = host.resolve dir
state_below host none = host.join (host.homedir ∷ ".local" ∷ "state" ∷ [])

-- `defaultStateRoot`
unfoldable pub default_state_root : Host → Environment → String
default_state_root host env = state_below host (trimmed (env "XDG_STATE_HOME"))

-- `defaultFullTraceDir`
unfoldable pub default_full_trace_dir : Host → Environment → String
default_full_trace_dir host env =
    host.join (default_state_root host env ∷ "chatgpt-web-agent" ∷ "full-trace" ∷ [])

-- `defaultRequestLedgerDir`
unfoldable pub default_request_ledger_dir : Host → Environment → String
default_request_ledger_dir host env = host.join (
    state_below host (trimmed (env "XDG_STATE_HOME")) ∷ "chatgpt-web-agent" ∷ "request-ledger" ∷ [])
