-- ===== src/Feishu/Mentions.antt =====
-- The mentions of a Feishu message (src/backend/feishu.ts, `parseMentions`, `renderMentionPrefix`).
use Prim.Native.Char.{code}
use chatgpt_web_agent.Base.{
  ℕ, suc, String, ◌<>◌, trim, Option, none, some, List, [], ◌∷◌, map, ◌==◌, ltb, nat_eq,
  get_or_else, if◌then◌else◌, Result, ok, err, raise_if, ◌>>=◌, ◌>>◌,
}
use chatgpt_web_agent.Json.{
  Json, undefined, str, arr, obj, Items, nil, cons, Fields, lookup_field, decimal,
}
use chatgpt_web_agent.Skills.{join_by}
use chatgpt_web_agent.Skills.Selection.{contains}
use chatgpt_web_agent.Feishu.{is_open_id}

pub record FeishuMention : Type 0 where
  pub open_id : String
  pub name : Option String

-- Every character of one code is replaced by a text.
unfoldable pub replace_code : ℕ → String → String → String
replace_code n new String.[] = ""
replace_code n new (String.◌∷◌ c s) =
    let rest = replace_code n new s in if nat_eq (code c) n then new <> rest else String.◌∷◌ c rest

-- `escapeMentionName`
unfoldable pub escape_mention_name : String → String
escape_mention_name s = replace_code 62 "&gt;" (replace_code 60 "&lt;" (replace_code 38 "&amp;" s))

unfoldable pub items_length : Items → ℕ
items_length nil = 0
items_length (cons v vs) = suc (items_length vs)

abbrev at_index : ℕ → String → String
at_index index rest = "mentions[" <> decimal index <> "]" <> rest

abbrev pub mention_object : ℕ → Json → Result Fields
mention_object index (obj fs) = ok fs
mention_object index _ = err (at_index index " must be an object")

abbrev pub mention_open_id : ℕ → Json → Result String
mention_open_id index (str s) =
    if is_open_id (trim s)
    then ok (trim s)
    else err (at_index index ".openId must be a Feishu open_id (ou_...)")
mention_open_id index _ = err (at_index index ".openId must be a Feishu open_id (ou_...)")

abbrev pub mention_name : ℕ → Json → Result (Option String)
mention_name index undefined = ok none
mention_name index (str s) = ok (if trim s == "" then none else some (trim s))
mention_name index _ = err (at_index index ".name must be a string")

unfoldable pub parse_mention : ℕ → Json → Result FeishuMention
parse_mention index item = do
  mention ← mention_object index item
  open_id ← mention_open_id index (lookup_field "openId" mention)
  name ← mention_name index (lookup_field "name" mention)
  ok (record { open_id = open_id; name = name })

abbrev pub after_mention : List String → FeishuMention → List String
after_mention seen m = if contains m.open_id seen then seen else m.open_id ∷ seen

abbrev pub keep_mention : List String → FeishuMention → List FeishuMention → List FeishuMention
keep_mention seen m later = if contains m.open_id seen then later else m ∷ later

-- The loop over `raw.entries()`: a person who was seen is passed over.
unfoldable pub collect_mentions : ℕ → List String → Items → Result (List FeishuMention)
collect_mentions index seen nil = ok []
collect_mentions index seen (cons item items) = do
  m ← parse_mention index item
  later ← collect_mentions (suc index) (after_mention seen m) items
  ok (keep_mention seen m later)

unfoldable pub mentions_of : Json → Result (List FeishuMention)
mentions_of undefined = ok []
mentions_of (arr items) =
    raise_if (ltb 20 (items_length items)) "mentions may contain at most 20 entries"
    >> collect_mentions 0 [] items
mentions_of _ = err "mentions must be an array"

-- `parseMentions`
unfoldable pub parse_mentions : Fields → Result (List FeishuMention)
parse_mentions args = mentions_of (lookup_field "mentions" args)

unfoldable pub render_mention : FeishuMention → String
render_mention m =
    "<at user_id=\""
    <> m.open_id
    <> "\">"
    <> escape_mention_name (get_or_else m.name m.open_id)
    <> "</at>"

-- `renderMentionPrefix`
unfoldable pub render_mention_prefix : List FeishuMention → String
render_mention_prefix mentions = join_by " " (map render_mention mentions)
