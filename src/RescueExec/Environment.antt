-- ===== src/RescueExec/Environment.antt =====
-- Where the environment of a rescue command comes from (src/backend/rescue-exec.ts).
use chatgpt_web_agent.Base.{
  String, true, Option, none, some, [], ◌∷◌, eq_iff, if◌then◌else◌, ◌≡◌, sym, ap, subst, inl, inr,
  ◌⊎◌, arith, ok, ok-injective,
}
use chatgpt_web_agent.Base.Table.{Table, get, put}
use chatgpt_web_agent.Json.{Json, undefined, null, bool, num, str, arr, obj, Fields, end, field}
use chatgpt_web_agent.RescueExec.{
  is_safe, inherit, build_minimal_environment, parse_entries, parse_env, spread,
}

-- The entry `k = v` stands in the environment of the service.
abbrev pub Inherited : String → String → Table (Option String) → Type 0
Inherited k v [] = ⊥
Inherited k v ((j, w) ∷ source) = ((j ≡ k) × (w ≡ some v)) ⊎ Inherited k v source

-- The argument `env` names `k` with the value `v`.
abbrev pub Named : String → String → Fields → Type 0
Named k v end = ⊥
Named k v (field j w fs) = ((j ≡ k) × (w ≡ str v)) ⊎ Named k v fs

abbrev pub Explicit : String → String → Json → Type 0
Explicit k v (obj fs) = Named k v fs
Explicit k v _ = ⊥

put-value :
    (k j v w : String) (env : Table String)
    → get k (put j w env) ≡ some v
    → ((j ≡ k) × (w ≡ v)) ⊎ (get k env ≡ some v)
unfolding get put
put-value k j v w [] h = ground (arith, eq_iff j k)
put-value k j v w ((i, u) ∷ env) h =
    ground (arith, eq_iff i j, eq_iff i k, eq_iff j k, put-value k j v w env)

inherit-source :
    (k v : String) (source : Table (Option String)) (env : Table String)
    → get k (inherit source env) ≡ some v
    → ((is_safe k ≡ true) × Inherited k v source) ⊎ (get k env ≡ some v)
unfolding inherit
inherit-source k v [] env h = inr h
inherit-source k v ((j, none) ∷ source) env h = ground (arith, inherit-source k v source env)
inherit-source k v ((j, some w) ∷ source) env h = ground (
  arith,
  inherit-source k v source (if is_safe j then put j w env else env),
  put-value k j v w env,
  ap is_safe {x = j} {y = k},
)

-- An entry of a table, also one that a later entry hides.
abbrev Written : String → String → Table String → Type 0
Written k v [] = ⊥
Written k v ((j, w) ∷ env) = ((j ≡ k) × (w ≡ v)) ⊎ Written k v env

put-Written :
    (k j v w : String) (env : Table String)
    → Written k v (put j w env)
    → ((j ≡ k) × (w ≡ v)) ⊎ Written k v env
unfolding put
put-Written k j v w [] h = ground arith
put-Written k j v w ((i, u) ∷ env) h = ground (arith, eq_iff i j, put-Written k j v w env)

spread-source :
    (k v : String) (env extra : Table String)
    → get k (spread env extra) ≡ some v
    → Written k v extra ⊎ (get k env ≡ some v)
unfolding spread
spread-source k v env [] h = inr h
spread-source k v env ((j, w) ∷ extra) h =
    ground (arith, spread-source k v (put j w env) extra, put-value k j v w env)

parse_entries-source :
    (k v : String) (fs : Fields) (parsed env : Table String)
    → parse_entries fs parsed ≡ ok env
    → Written k v env
    → Named k v fs ⊎ Written k v parsed
unfolding parse_entries
parse_entries-source k v end parsed env e h = inr (subst (Written k v) (sym (ok-injective e)) h)
parse_entries-source k v (field j (str w) fs) parsed env e h =
    ground (arith, parse_entries-source k v fs (put j w parsed) env e h, put-Written k j v w parsed)
parse_entries-source k v (field j undefined fs) parsed env e h = absurd (cc e)
parse_entries-source k v (field j null fs) parsed env e h = absurd (cc e)
parse_entries-source k v (field j (bool _) fs) parsed env e h = absurd (cc e)
parse_entries-source k v (field j (num _) fs) parsed env e h = absurd (cc e)
parse_entries-source k v (field j (arr _) fs) parsed env e h = absurd (cc e)
parse_entries-source k v (field j (obj _) fs) parsed env e h = absurd (cc e)

parse_env-source :
    (k v : String) (value : Json) (env : Table String)
    → parse_env value ≡ ok env
    → Written k v env
    → Explicit k v value
unfolding parse_env
parse_env-source k v undefined env e h = subst (Written k v) (sym (ok-injective e)) h
parse_env-source k v null env e h = absurd (cc e)
parse_env-source k v (bool _) env e h = absurd (cc e)
parse_env-source k v (num _) env e h = absurd (cc e)
parse_env-source k v (str _) env e h = absurd (cc e)
parse_env-source k v (arr _) env e h = absurd (cc e)
parse_env-source k v (obj fs) env e h = elim (parse_entries-source k v fs [] env e h) [
  | inl given ↦ given
  | inr never ↦ elim never [ ]
]

pub env-source :
    (k v : String) (source : Table (Option String)) (value : Json) (extra : Table String)
    → parse_env value ≡ ok extra
    → get k (spread (build_minimal_environment source) extra) ≡ some v
    → Explicit k v value ⊎ ((is_safe k ≡ true) × Inherited k v source)
unfolding build_minimal_environment get
env-source k v source value extra e h = elim (spread-source k v (inherit source []) extra h) [
  | inl given ↦ inl (parse_env-source k v value extra e given)
  | inr base ↦ elim (inherit-source k v source [] base) [
    | inl found ↦ inr found
    | inr never ↦ absurd (cc never)
  ]
]
