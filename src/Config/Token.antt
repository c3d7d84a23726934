-- ===== src/Config/Token.antt =====
-- Where the gateway's token comes from (src/config.ts, `readGatewayToken`).
use chatgpt_web_agent.Base.{
  ◌%◌, String, trim, true, false, not, ◌||◌, ◌&&◌, Option, none, some, ◌==◌, nat_eq, ok, Ensures,
  returns, throws, Ensures-bind, Ensures-inv, ◌≡◌, refl, arith, Bool-cases, inl, inr, ◌⊎◌,
}
use chatgpt_web_agent.Config.Readers.{
  Environment, Host, Stat, trimmed, open_to_others, read_token_file, token_from, read_gateway_token,
}

-- The token `t` stands in a file that the service accepts.
pub record Kept (host : Host) (file t : String) : Type 0 where
  pub stat : Stat
  pub content : String
  pub found : host.lstat (host.resolve file) ≡ ok stat
  pub regular : (stat.is_file ≡ true) × (stat.is_symbolic_link ≡ false)
  pub private_mode : (host.is_windows ≡ true) ⊎ (stat.mode % 64 ≡ 0)
  pub read : host.read_file (host.resolve file) ≡ ok content
  pub is_trimmed : trim content ≡ t
  pub not_empty : (t == "") ≡ false

-- The token that the setting gives, or the one in the file, of which the other is not set.
abbrev pub Source : Host → Option String → Option String → Option String → Type 0
Source host inline file none = (inline ≡ none) × (file ≡ none)
Source host inline file (some t) =
    ((inline ≡ some t) × (file ≡ none))
    ⊎ ((inline ≡ none) × ((f : String) × (file ≡ some f) × Kept host f t))

file-Source :
    (host : Host) (file : String)
    → Ensures (Source host none (some file)) (read_token_file host (host.resolve file))
unfolding read_token_file open_to_others
file-Source host file = Ensures-bind (host.lstat (host.resolve file)) _ λ stat found.
    elim (Bool-cases (not stat.is_file || stat.is_symbolic_link)) [
      | inl irregular ↦ rw irregular throws
      | inr regular ↦
          rw regular (elim (Bool-cases (not host.is_windows && not (nat_eq (stat.mode % 64) 0))) [
            | inl exposed ↦ rw exposed throws
            | inr closed ↦ rw closed (
                Ensures-bind (host.read_file (host.resolve file)) _ λ content read.
                  elim (Bool-cases (trim content == "")) [
                    | inl blank ↦ rw blank throws
                    | inr full ↦ rw full (
                        returns (
                          inr (
                            refl,
                            (
                              file,
                              refl,
                              record {
                                stat = stat;
                                content = content;
                                found = found;
                                regular = ground arith;
                                private_mode = ground arith;
                                read = read;
                                is_trimmed = refl;
                                not_empty = full;
                              },
                            ),
                          )))
                  ])
          ])
    ]

from-Source :
    (host : Host) (inline file : Option String)
    → Ensures (Source host inline file) (token_from host inline file)
unfolding token_from
from-Source host (some token) (some file) = throws
from-Source host (some token) none = returns (inl (refl, refl))
from-Source host none none = returns (refl, refl)
from-Source host none (some file) = file-Source host file

-- When the token is read, it comes from one place: from the setting, and then no file is named, or
-- from the file, and then the file is a regular one and no link, the group and others have no right
-- to it unless the system is Windows, and the token is its trimmed content and not empty. There is
-- no token only where neither is set.
pub read_gateway_token-Source :
    (host : Host) (env : Environment) (token : Option String)
    → read_gateway_token host env ≡ ok token
    → Source host
        (trimmed (env "CHATGPT_WEB_AGENT_GATEWAY_TOKEN"))
        (trimmed (env "CHATGPT_WEB_AGENT_GATEWAY_TOKEN_FILE"))
        token
unfolding read_gateway_token
read_gateway_token-Source host env token e =
    Ensures-inv
      (from-Source host (trimmed (env "CHATGPT_WEB_AGENT_GATEWAY_TOKEN"))
        (trimmed (env "CHATGPT_WEB_AGENT_GATEWAY_TOKEN_FILE")))
      e
