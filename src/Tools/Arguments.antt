-- ===== src/Tools/Arguments.antt =====
-- The arguments of a tool, as src/backend/skills.ts and src/backend/feishu.ts read them.
use chatgpt_web_agent.Base.{
  ℕ, String, ◌<>◌, trim, Bool, ◌&&◌, Option, none, some, leb, ◌==◌, if◌then◌else◌, Result, ok, err,
}
use chatgpt_web_agent.Json.{undefined, null, bool, num, str, Fields, lookup_field, decimal}

abbrev missing : String → Bool → Result (Option String)
missing name required = if required then err (name <> " is required") else ok none

abbrev cut : String → Bool → String → Result (Option String)
cut name required s = if trim s == "" then missing name required else ok (some (trim s))

-- `stringArg`
unfoldable pub string_arg : Fields → String → Bool → Result (Option String)
string_arg args name required = elim (lookup_field name args) [
  | undefined ↦ missing name required
  | null ↦ missing name required
  | str s ↦ cut name required s
  | _ ↦ err (name <> " must be a string")
]

abbrev out_of_bounds : String → ℕ → ℕ → Result ℕ
out_of_bounds name low high =
    err (name <> " must be an integer between " <> decimal low <> " and " <> decimal high)

-- `integerArg`
unfoldable pub integer_arg : Fields → String → ℕ → ℕ → ℕ → Result ℕ
integer_arg args name fallback low high = elim (lookup_field name args) [
  | undefined ↦ ok fallback
  | num n ↦ if leb low n && leb n high then ok n else out_of_bounds name low high
  | _ ↦ out_of_bounds name low high
]

-- `booleanArg`
unfoldable pub boolean_arg : Fields → String → Bool → Result Bool
boolean_arg args name fallback = elim (lookup_field name args) [
  | undefined ↦ ok fallback
  | bool b ↦ ok b
  | _ ↦ err (name <> " must be a boolean")
]
