-- ===== src/Main.antt =====
-- cmd/server/main.go, with the parts of internal/llm (registry.go, ping.go, the constructors of the
-- clients) and internal/config/config.go that it uses. What the adapters of the fantasy library return
-- is a parameter.
use kubernetes_agent.Base.{
  ℕ, String, Bool, true, false, List, [], ◌∷◌, Option, none, some, Result, ok, err, ltb, nat_eq,
  ◌==◌, ◌||◌, if◌then◌else◌,
}
use kubernetes_agent.Store.Failure.{DbError}
use kubernetes_agent.Store.Policies.{Policy, seed_default_policies}
use kubernetes_agent.Store.Audit.{AuditTable}
use kubernetes_agent.Policy.Rules.{Rule, default_rules}
use kubernetes_agent.Server.Policies.{Service}
use kubernetes_agent.K8s.Resolver.{find_key}
use kubernetes_agent.Skills.Loader.{expand_home}

-- Provider of internal/llm/provider.go
pub record Provider : Type 0 where
  pub name : String
  pub type : String
  pub api_key : String
  pub base_url : String
  pub model : String

pub record PingStatus : Type 0 where
  pub name : String
  pub ok : Bool
  pub reason : String

-- what GET of a base URL gives: a status and its text, or the text of an error
pub data PingReply : Type 0 where
  answered : ℕ → String → PingReply
  unreachable : String → PingReply

abbrev pub ping_reply : String → PingReply → PingStatus
ping_reply name (answered status text) = record {
  name = name;
  ok = ltb status 500;
  reason = if ltb status 500 then "" else text;
}
ping_reply name (unreachable text) = record { name = name; ok = false; reason = text }

-- PingProvider
unfoldable pub ping_provider : (Provider → PingReply) → Provider → PingStatus
ping_provider get p =
    if p.base_url == ""
    then record { name = p.name; ok = false; reason = "base_url is empty" }
    else ping_reply p.name (get p)

-- PingAll, the answers in the order in which they come in
unfoldable pub ping_all :
    (Provider → PingReply) → List Provider → List (String × PingStatus) → List (String × PingStatus)
unfolding ping_provider
ping_all get [] m = m
ping_all get (p ∷ ps) m = ping_all get ps ((p.name, ping_provider get p) ∷ m)

abbrev pub status_text : Option PingStatus → String
status_text none = "unknown"
status_text (some s) = if s.ok then "enabled" else "disabled"

-- providerStatusString
unfoldable pub provider_status_string : List (String × PingStatus) → Provider → String
unfolding find_key
provider_status_string health p = status_text (find_key p.name health)

-- Registry.Status
unfoldable pub registry_status : List (String × PingStatus) → List Provider → List (String × String)
unfolding provider_status_string
registry_status health [] = []
registry_status health (p ∷ ps) =
    (p.name, provider_status_string health p) ∷ registry_status health ps

-- `make` is the adapter that a provider's options give, if the library accepts them
module _ {Client : Type 0} (make : Provider → Option Client) where
  -- the constructors of anthropic.go and openai.go, and that of openai_compat.go
  unfoldable pub keyed_client : Provider → Option Client
  keyed_client p = if p.api_key == "" || p.model == "" then none else make p

  unfoldable pub compat_client : Provider → Option Client
  compat_client p = if p.base_url == "" || p.model == "" then none else make p

  -- buildClient
  unfoldable pub build_client : Provider → Option Client
  unfolding keyed_client compat_client
  build_client p =
      if p.type == "anthropic" || p.type == "openai"
      then keyed_client p
      else if p.type == "openai-compatible" || p.type == "openai_compat"
      then compat_client p
      else none

  abbrev pub put_client : String → Option Client → List (String × Client) → List (String × Client)
  put_client name none m = m
  put_client name (some c) m = (name, c) ∷ m

  -- buildRegistry: the clients by name, the newest first
  unfoldable pub build_registry : List Provider → List (String × Client) → List (String × Client)
  unfolding build_client
  build_registry [] m = m
  build_registry (p ∷ ps) m = build_registry ps (put_client p.name (build_client p) m)

  abbrev pub or_client : Option Client → Option Client → Option Client
  or_client none rest = rest
  or_client (some c) rest = some c

  unfoldable pub first_client : List Provider → List (String × Client) → Option Client
  unfolding find_key
  first_client [] m = none
  first_client (p ∷ ps) m = or_client (find_key p.name m) (first_client ps m)

  -- pickDefaultClient
  unfoldable pub pick_default_client :
      String → List Provider → List (String × Client) → Option Client
  unfolding first_client find_key
  pick_default_client name ps m =
      or_client (if name == "" then none else find_key name m) (first_client ps m)

-- the settings of internal/config that have a default
pub record Settings : Type 0 where
  pub port : ℕ
  pub host : String
  pub db_path : String
  pub skills_dir : String
  pub skills_enabled : Bool

abbrev pub or_default : String → String → String
or_default d s = if s == "" then d else s

-- the end of Load, after the YAML is read
unfoldable pub with_defaults : Option String → Settings → Settings
unfolding expand_home
with_defaults home s = record {
  port = if nat_eq s.port 0 then 8080 else s.port;
  host = or_default "127.0.0.1" s.host;
  db_path = expand_home home (or_default "~/.kubernetes-agent/data.db" s.db_path);
  skills_dir = expand_home home (or_default "~/.kubernetes-agent/skills" s.skills_dir);
  skills_enabled = if s.skills_enabled then s.skills_enabled else true;
}

-- the policies part of startup and buildDeps: the table is seeded, and the engine starts with the
-- default rules, whatever the table holds
abbrev pub started : AuditTable → List Policy → Service
started audit rows = record {
  policies = rows;
  engine = record { rules = default_rules };
  audit = audit;
}

module _ (encode : Rule → Result DbError String) (ids : ℕ → String) (now : ℕ) where
  unfoldable pub start_service : AuditTable → List Policy → Result DbError Service
  unfolding seed_default_policies
  start_service audit rows =
      let seeded = seed_default_policies encode ids now rows in
      elim seeded.1 [ err e ↦ err e | ok u ↦ ok (started audit seeded.0) ]
