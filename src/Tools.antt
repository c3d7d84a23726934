-- ===== src/Tools.antt =====
-- What a tool returns (src/result.ts) and the directory it works in (src/backend/workdir.ts). A text
-- of a result is a list of UTF-16 code units, by which JavaScript measures and cuts it.
pub mod Arguments
use chatgpt_web_agent.Base.{
  ℕ, ◌-◌, String, ◌<>◌, trim, starts_with, Bool, true, false, not, ◌&&◌, ◌||◌, Option, none, some,
  List, [], ◌∷◌, ◌++◌, length, leb, ◌==◌, if◌then◌else◌, Result, ok, raise_if, ◌>>=◌, ◌>>◌,
}
use chatgpt_web_agent.Base.Table.{take}
use chatgpt_web_agent.Json.{
  Json, undefined, null, bool, str, arr, obj, Items, nil, cons, Fields, end, field, lookup_field,
  code_units, decimal, quote, stringify,
}

abbrev pub Units : Type 0
Units = List ℕ

pub data ContentBlock : Type 0 where
  text : Units → ContentBlock
  image : String → String → ContentBlock
  resource : Json → ContentBlock

-- `D` is the type of the structured content.
pub record CallToolResult (D : Type 0) : Type 0 where
  pub content : List ContentBlock
  pub is_error : Bool
  pub structured_content : Option D

-- `toolError`
unfoldable pub tool_error : {D : Type 0} → Units → CallToolResult D
tool_error message = record {
  content = text message ∷ [];
  is_error = true;
  structured_content = none;
}

abbrev commas : String → String → String → String
commas sep a String.[] = a
commas sep a b = a <> sep <> b

abbrev bracket : String → String → String → String → String
bracket l pad r String.[] = l <> r
bracket l pad r body = l <> body <> pad <> r

unfoldable mutual
  unfolding stringify

  -- `JSON.stringify(value, null, 2)`, where `pad` is a line break and the blanks of the level
  pub pretty : String → Json → String
  pretty pad (arr xs) = bracket "[" pad "]" (pretty_items (pad <> "  ") xs)
  pretty pad (obj fs) = bracket "{" pad "}" (pretty_fields (pad <> "  ") fs)
  pretty pad v = stringify v

  pub pretty_items : String → Items → String
  pretty_items pad nil = ""
  pretty_items pad (cons v vs) = commas "," (pad <> pretty pad v) (pretty_items pad vs)

  pub pretty_fields : String → Fields → String
  pretty_fields pad end = ""
  pretty_fields pad (field k undefined fs) = pretty_fields pad fs
  pretty_fields pad (field k v fs) =
      commas "," (pad <> quote k <> ": " <> pretty pad v) (pretty_fields pad fs)

-- `stringifyUnknown`
unfoldable pub stringify_unknown : Json → String
stringify_unknown (str s) = s
stringify_unknown undefined = "undefined"
stringify_unknown v = pretty "\n" v

unfoldable pub omission_notice : ℕ → Units
omission_notice omitted =
    code_units ("\n\n[chatgpt-web-agent truncated " <> decimal omitted <> " characters]")

-- `truncateText`
unfoldable pub truncate_text : ℕ → Units → Units
truncate_text max_chars t =
    if leb (length t) max_chars
    then t
    else take max_chars t ++ omission_notice (length t - max_chars)

-- `candidate[k]`: an array has no field that is read.
unfoldable pub member : String → Json → Json
member k (obj fs) = lookup_field k fs
member k _ = undefined

abbrev text_block : Json → Json → Option String
text_block (str type) (str t) = if type == "text" then some t else none
text_block _ _ = none

abbrev image_block : Json → Json → Json → Option (String × String)
image_block (str type) (str bytes) (str mime) = if type == "image" then some (bytes, mime) else none
image_block _ _ _ = none

-- An array counts as an object here.
abbrev is_object : Json → Bool
is_object (obj _) = true
is_object (arr _) = true
is_object _ = false

abbrev resource_block : Json → Json → Bool
resource_block (str type) r = type == "resource" && is_object r
resource_block _ _ = false

abbrev pick_block : ℕ → Json → Option String → Option (String × String) → Bool → ContentBlock
pick_block max_chars block (some t) _ _ = text (truncate_text max_chars (code_units t))
pick_block max_chars block none (some (bytes, mime)) _ = image bytes mime
pick_block max_chars block none none true = resource block
pick_block max_chars block none none false =
    text (truncate_text max_chars (code_units (stringify_unknown block)))

-- `normalizeContentBlock`
unfoldable pub normalize_content_block : ℕ → Json → ContentBlock
normalize_content_block max_chars block =
    pick_block max_chars block (text_block (member "type" block) (member "text" block))
      (image_block (member "type" block) (member "data" block) (member "mimeType" block))
      (resource_block (member "type" block) (member "resource" block))

unfoldable pub normalize_blocks : ℕ → Items → List ContentBlock
normalize_blocks max_chars nil = []
normalize_blocks max_chars (cons b bs) =
    normalize_content_block max_chars b ∷ normalize_blocks max_chars bs

-- `Array.isArray(candidate.content) ? candidate.content : [result]`
abbrev raw_content : Json → Json → Items
raw_content result (arr blocks) = blocks
raw_content result _ = cons result nil

abbrev is_true : Json → Bool
is_true (bool b) = b
is_true _ = false

abbrev details_of : Json → Option Fields
details_of (obj fs) = some fs
details_of _ = none

-- `normalizeToolResult`
unfoldable pub normalize_tool_result : Json → ℕ → CallToolResult Fields
normalize_tool_result result max_chars = record {
  content = normalize_blocks max_chars (raw_content result (member "content" result));
  is_error = is_true (member "isError" result);
  structured_content = details_of (member "details" result);
}

-- `node:path`
pub record Paths : Type 0 where
  pub resolve : String → String → String
  pub relative : String → String → String
  pub is_absolute : String → Bool

unfoldable pub is_inside : Paths → String → String → Bool
is_inside path root candidate =
    let way = path.relative root candidate in
    way == "" || (not (starts_with ".." way) && not (path.is_absolute way))

-- `requestedWorkdir?.trim() || "."`
unfoldable pub workdir_or_here : Option String → String
workdir_or_here none = "."
workdir_or_here (some w) = if trim w == "" then "." else trim w

-- `resolveToolWorkdir`
unfoldable pub resolve_tool_workdir : Paths → String → Option String → Bool → String → Result String
resolve_tool_workdir path workspace_dir requested workspace_only tool =
    let workdir = path.resolve workspace_dir (workdir_or_here requested) in
    raise_if (workspace_only && not (is_inside path workspace_dir workdir))
      (tool <> " workdir must stay inside workspace: " <> workspace_dir)
    >> ok workdir
