-- ===== src/Serving/Config.antt =====
-- crates/attesta-core/src/config.rs, and `cors_layer` of crates/attesta-api/src/main.rs. The environment, the parsing
-- of numbers and of header values, and `str::trim` are parameters.
use Prim.Native.Char.{Char, code}
use attesta_protocol_backend.Prelude.{
  ℕ, Bool, true, false, ◌||◌, String, Option, none, some, List, [], ◌∷◌, ◌++◌, ◌==◌ as nat_eq,
  if◌then◌else◌,
}
use attesta_protocol_backend.Prelude.Keys.{◌==◌, String_eq}
use attesta_protocol_backend.Prelude.Exec.{Result, ok, err}

pub record Environment : Type 0 where
  pub var : String → Option String
  pub trim : String → String
  pub parse_u32 : String → Option ℕ
  pub parse_u64 : String → Option ℕ

pub record RateLimits : Type 0 where
  pub read_per_sec : ℕ
  pub read_burst : ℕ
  pub write_per_sec : ℕ
  pub write_burst : ℕ
  pub sse_per_ip : ℕ
  pub sse_global : ℕ
  pub issuer_deliveries_per_hour : ℕ

pub record Config : Type 0 where
  pub database_url : String
  pub bind_addr : String
  pub soroban_rpc_url : String
  pub network_passphrase : String
  pub pool_contract_ids : List String
  pub registry_contract_id : Option String
  pub indexer_poll_secs : ℕ
  pub artifacts_dir : String
  pub credential_retention_claimed_days : ℕ
  pub credential_retention_unclaimed_days : ℕ
  pub rate_limits : RateLimits
  pub cors_allowed_origins : List String
  pub ready_max_indexer_staleness_secs : ℕ
  pub stats_cache_ttl_secs : ℕ

-- `unwrap_or`
abbrev pub or_else : {A : Type 0} → A → Option A → A
or_else d none = d
or_else d (some a) = a

abbrev pub and_then : {A B : Type 0} → Option A → (A → Option B) → Option B
and_then none f = none
and_then (some a) f = f a

unfoldable pub env_u32 : Environment → String → ℕ → ℕ
env_u32 env key default = or_else default (and_then (env.var key) env.parse_u32)

unfoldable pub is_blank : String → Bool
is_blank String.[] = true
is_blank (String.◌∷◌ c s) = false

unfoldable pub add_to_first : Char → List String → List String
add_to_first c [] = String.◌∷◌ c String.[] ∷ []
add_to_first c (part ∷ parts) = String.◌∷◌ c part ∷ parts

-- `.split(',')`
unfoldable pub split_comma : String → List String
unfolding add_to_first
split_comma String.[] = String.[] ∷ []
split_comma (String.◌∷◌ c s) =
    let rest = split_comma s in
    if nat_eq (code c) b',' then String.[] ∷ rest else add_to_first c rest

-- `.map(str::trim).filter(|s| !s.is_empty())`
unfoldable pub trimmed : Environment → List String → List String
unfolding is_blank
trimmed env [] = []
trimmed env (part ∷ parts) =
    let rest = trimmed env parts in if is_blank (env.trim part) then rest else env.trim part ∷ rest

unfoldable pub env_list : Environment → String → List String
unfolding split_comma trimmed
env_list env key = trimmed env (split_comma (or_else "" (env.var key)))

-- `.filter(|s| !s.trim().is_empty())`
unfoldable pub unless_blank : Environment → Option String → Option String
unfolding is_blank
unless_blank env none = none
unless_blank env (some text) = if is_blank (env.trim text) then none else some text

unfoldable pub rate_limits_from : Environment → RateLimits
unfolding env_u32
rate_limits_from env = record {
  read_per_sec = env_u32 env "RATE_LIMIT_READ_PER_SEC" 50;
  read_burst = env_u32 env "RATE_LIMIT_READ_BURST" 200;
  write_per_sec = env_u32 env "RATE_LIMIT_WRITE_PER_SEC" 2;
  write_burst = env_u32 env "RATE_LIMIT_WRITE_BURST" 20;
  sse_per_ip = env_u32 env "RATE_LIMIT_SSE_PER_IP" 10;
  sse_global = env_u32 env "RATE_LIMIT_SSE_GLOBAL" 1000;
  issuer_deliveries_per_hour = env_u32 env "RATE_LIMIT_ISSUER_DELIVERIES_PER_HOUR" 600;
}

unfoldable pub config_with : Environment → String → Config
unfolding env_u32 env_list unless_blank rate_limits_from
config_with env database_url = record {
  database_url = database_url;
  bind_addr = or_else "0.0.0.0:8080" (env.var "BIND_ADDR");
  soroban_rpc_url = or_else "https://soroban-testnet.stellar.org" (env.var "SOROBAN_RPC_URL");
  network_passphrase =
      or_else "Test SDF Network ; September 2015" (env.var "STELLAR_NETWORK_PASSPHRASE");
  pool_contract_ids = env_list env "POOL_CONTRACT_IDS";
  registry_contract_id = unless_blank env (env.var "REGISTRY_CONTRACT_ID");
  indexer_poll_secs = or_else 5 (and_then (env.var "INDEXER_POLL_SECS") env.parse_u64);
  artifacts_dir = or_else "./artifacts" (env.var "ARTIFACTS_DIR");
  credential_retention_claimed_days = env_u32 env "CREDENTIAL_RETENTION_CLAIMED_DAYS" 30;
  credential_retention_unclaimed_days = env_u32 env "CREDENTIAL_RETENTION_UNCLAIMED_DAYS" 180;
  rate_limits = rate_limits_from env;
  cors_allowed_origins = env_list env "CORS_ALLOWED_ORIGINS";
  ready_max_indexer_staleness_secs = env_u32 env "READY_MAX_INDEXER_STALENESS_SECS" 0;
  stats_cache_ttl_secs = env_u32 env "STATS_CACHE_TTL_SECS" 10;
}

-- `none` where DATABASE_URL is missing.
unfoldable pub from_env : Environment → Option Config
unfolding config_with
from_env env =
    and_then (env.var "DATABASE_URL") (λ database_url. some (config_with env database_url))

-- The contracts that the indexer follows.
unfoldable pub contracts_of : Config → List String
contracts_of config =
    config.pool_contract_ids ++ elim config.registry_contract_id [ none ↦ [] | some reg ↦ reg ∷ [] ]

-- The origins that a browser may come from.
pub data AllowOrigin (V : Type 0) : Type 0 where
  any_origin : AllowOrigin V
  origins : List V → AllowOrigin V

unfoldable pub has_star : List String → Bool
has_star [] = false
has_star (o ∷ os) = o == "*" || has_star os

-- `.collect::<Result<_>>()`, with the origin that is no header value.
unfoldable pub parse_all : {V : Type 0} → (String → Option V) → List String → Result String (List V)
parse_all {V} parse [] = ok []
parse_all {V} parse (o ∷ os) = parsed (parse o) (parse_all parse os)
  where
    parsed : Option V → Result String (List V) → Result String (List V)
    parsed none rest = err o
    parsed (some v) (ok vs) = ok (v ∷ vs)
    parsed (some v) (err e) = err e

unfoldable pub allow_list :
    {V : Type 0} → Result String (List V) → Result String (Option (AllowOrigin V))
allow_list (ok vs) = ok (some (origins vs))
allow_list (err e) = err e

-- Without origins there is no layer.
unfoldable pub cors_layer :
    {V : Type 0} → (String → Option V) → List String → Result String (Option (AllowOrigin V))
unfolding has_star parse_all allow_list
cors_layer parse [] = ok none
cors_layer parse (o ∷ os) =
    if has_star (o ∷ os) then ok (some any_origin) else allow_list (parse_all parse (o ∷ os))
