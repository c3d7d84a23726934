-- ===== src/Feishu/Safety.antt =====
-- What the checks of the Feishu backend (src/backend/feishu.ts) say of the account, of the mentions
-- and of the attached file.
use chatgpt_web_agent.Base.{
  ℕ, suc, ◌≤◌, String, trim, Bool, true, false, not, ◌&&◌, Option, none, some, List, [], ◌∷◌,
  length, ◌==◌, ltb, ok, raise_if, Ensures, returns, throws, Ensures-bind, Ensures-then, Ensures-if,
  Ensures-map, ◌≡◌, ◌⊎◌, inl, inr, refl, ap, ◌∙◌, arith, Bool-cases,
}
use chatgpt_web_agent.Json.{
  Json, undefined, null, bool, num, str, arr, obj, Items, nil, cons, lookup_field,
}
use chatgpt_web_agent.Config.{FeishuConfig}
use chatgpt_web_agent.Tools.{is_inside}
use chatgpt_web_agent.Skills.Selection.{contains}
use chatgpt_web_agent.Feishu.{
  Account, Deps, is_open_id, assert_fixed_identity, assert_fixed_identity_account, is_off,
  resolve_media_path, requested_path, inside_real_root,
}
use chatgpt_web_agent.Feishu.Mentions.{
  FeishuMention, items_length, parse_mention, after_mention, keep_mention, collect_mentions,
  mentions_of, mention_object, mention_open_id, mention_name,
}
use chatgpt_web_agent.Feishu.Message.{resolve_optional}

-- The gateway has told that the account of the configuration is there, configured and not disabled.
pub record IsFixed (config : FeishuConfig) (deps : Deps) : Type 0 where
  pub account : Account
  pub told : deps.get_account_status ≡ ok (some account)
  pub same_account : (account.account_id == config.account_id) ≡ true
  pub is_configured : account.configured ≡ true
  pub not_disabled : (account.enabled ≡ none) ⊎ (account.enabled ≡ some true)

enabled-checked :
    (o : Option Bool) (message : String)
    → Ensures (λ _. (o ≡ none) ⊎ (o ≡ some true)) (raise_if (is_off o) message)
enabled-checked none message = returns (inl refl)
enabled-checked (some true) message = returns (inr refl)
enabled-checked (some false) message = throws

account-IsFixed :
    (config : FeishuConfig) (deps : Deps) (found : Option Account)
    → deps.get_account_status ≡ ok found
    → Ensures (λ _. IsFixed config deps) (assert_fixed_identity_account config found)
unfolding assert_fixed_identity_account
account-IsFixed config deps none told = throws
account-IsFixed config deps (some a) told =
    Ensures-bind (raise_if (not (a.account_id == config.account_id)) _) _ λ _ same.
      Ensures-bind (raise_if (not a.configured) _) _ λ _ configured.
        Ensures-map
          (λ _ enabled. record {
            account = a;
            told = told;
            same_account = ground (arith, same);
            is_configured = ground (arith, configured);
            not_disabled = enabled;
          })
          (enabled-checked a.enabled _)

pub fixed :
    (config : FeishuConfig) (deps : Deps)
    → Ensures (λ _. IsFixed config deps) (assert_fixed_identity config deps)
unfolding assert_fixed_identity
fixed config deps =
    Ensures-bind deps.get_account_status _ λ found told. account-IsFixed config deps found told

-- The mentions of a message: each is an open id, and none stands twice, nor among those seen before.
abbrev pub Distinct : List String → List FeishuMention → Type 0
Distinct seen [] = Unit
Distinct seen (m ∷ ms) =
    (is_open_id m.open_id ≡ true)
    × (contains m.open_id seen ≡ false)
    × Distinct (m.open_id ∷ seen) ms

open_id-checked :
    (index : ℕ) (value : Json) → Ensures (λ s. is_open_id s ≡ true) (mention_open_id index value)
open_id-checked index (str s) = Ensures-if (is_open_id (trim s)) _ _ (λ e. returns e) λ _. throws
open_id-checked index undefined = throws
open_id-checked index null = throws
open_id-checked index (bool _) = throws
open_id-checked index (num _) = throws
open_id-checked index (arr _) = throws
open_id-checked index (obj _) = throws

mention-checked :
    (index : ℕ) (item : Json)
    → Ensures (λ m. is_open_id m.open_id ≡ true) (parse_mention index item)
unfolding parse_mention
mention-checked index item = Ensures-bind (mention_object index item) _ λ mention _.
    Ensures-then (mention_open_id index (lookup_field "openId" mention)) _
      (open_id-checked index (lookup_field "openId" mention))
      λ open_id good.
        Ensures-bind (mention_name index (lookup_field "name" mention)) _ λ name _. returns good

abbrev Collected : List String → ℕ → List FeishuMention → Type 0
Collected seen n ms = Distinct seen ms × (length ms ≤ n)

keep-Collected :
    (seen : List String) (n : ℕ) (m : FeishuMention) (later : List FeishuMention)
    → is_open_id m.open_id ≡ true
    → Collected (after_mention seen m) n later
    → Collected seen (suc n) (keep_mention seen m later)
keep-Collected seen n m later good = elim (Bool-cases (contains m.open_id seen)) [
  | inl old ↦ rw old λ h. (h.0, omega (arith, h.1))
  | inr new ↦ rw new λ h. ((good, new, h.0), omega (arith, h.1))
]

collect-Collected :
    (index : ℕ) (seen : List String) (items : Items)
    → Ensures (Collected seen (items_length items)) (collect_mentions index seen items)
unfolding collect_mentions items_length
collect-Collected index seen nil = returns (tt, omega arith)
collect-Collected index seen (cons item items) =
    Ensures-then (parse_mention index item) _ (mention-checked index item) λ m good.
      Ensures-then (collect_mentions (suc index) (after_mention seen m) items) _
        (collect-Collected (suc index) (after_mention seen m) items)
        λ later h. returns (keep-Collected seen (items_length items) m later good h)

pub mentions_of-Distinct :
    (value : Json) → Ensures (λ ms. Distinct [] ms × (length ms ≤ 20)) (mentions_of value)
unfolding mentions_of
mentions_of-Distinct undefined = returns (tt, omega arith)
mentions_of-Distinct (arr items) =
    Ensures-bind (raise_if (ltb 20 (items_length items)) _) _ λ _ few.
      let bound : items_length items ≤ 20 = ground (arith, few) in
      Ensures-map (λ ms h. (h.0, omega (arith, h.1, bound))) (collect-Collected 0 [] items)
mentions_of-Distinct null = throws
mentions_of-Distinct (bool _) = throws
mentions_of-Distinct (num _) = throws
mentions_of-Distinct (str _) = throws
mentions_of-Distinct (obj _) = throws

-- A media file: a regular one and, where only the media root is allowed, the path that is asked for
-- lies inside the root and the real path inside the real root.
pub record IsMedia (config : FeishuConfig) (deps : Deps) (real_file : String) : Type 0 where
  pub raw_path : String
  pub is_real : deps.realpath (requested_path config deps raw_path) ≡ ok real_file
  pub is_regular : deps.is_file (requested_path config deps raw_path) ≡ ok true
  pub inside :
      (config.media_root_only ≡ false)
      ⊎ ((is_inside deps.path config.media_root (requested_path config deps raw_path) ≡ true)
          × ((real_root : String) × (deps.realpath config.media_root ≡ ok real_root)
              × (is_inside deps.path real_root real_file ≡ true)))

resolve_media_path-IsMedia :
    (config : FeishuConfig) (deps : Deps) (raw_path : String)
    → Ensures (IsMedia config deps) (resolve_media_path config deps raw_path)
unfolding resolve_media_path inside_real_root
resolve_media_path-IsMedia config deps raw_path =
    Ensures-bind
      (raise_if
        (config.media_root_only
          && not (is_inside deps.path config.media_root (requested_path config deps raw_path)))
        _)
      _
      λ _ near.
        Ensures-bind (deps.realpath (requested_path config deps raw_path)) _ λ real_file real.
          Ensures-bind (deps.is_file (requested_path config deps raw_path)) _ λ regular found.
            Ensures-bind (raise_if (not regular) _) _ λ _ is_regular.
              Ensures-if config.media_root_only _ _
                (λ only. Ensures-bind (deps.realpath config.media_root) _ λ real_root root.
                  Ensures-bind (raise_if (not (is_inside deps.path real_root real_file)) _) _
                    λ _ within. returns (record {
                      raw_path = raw_path;
                      is_real = real;
                      is_regular = found ∙ ap ok (ground (arith, is_regular));
                      inside =
                          inr
                            (ground (arith, near, only), (real_root, root, ground (arith, within)));
                    }))
                λ free. returns (record {
                  raw_path = raw_path;
                  is_real = real;
                  is_regular = found ∙ ap ok (ground (arith, is_regular));
                  inside = inl free;
                })

abbrev pub HasMedia : FeishuConfig → Deps → Option String → Type 0
HasMedia config deps none = Unit
HasMedia config deps (some real_file) = IsMedia config deps real_file

pub optional-HasMedia :
    (config : FeishuConfig) (deps : Deps) (path : Option String)
    → Ensures (HasMedia config deps) (resolve_optional config deps path)
optional-HasMedia config deps none = returns tt
optional-HasMedia config deps (some path) =
    Ensures-then (resolve_media_path config deps path) _
      (resolve_media_path-IsMedia config deps path) λ real h. returns h
