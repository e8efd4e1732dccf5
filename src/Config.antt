-- ===== src/Config.antt =====
-- crates/dnser-config/src. `read_to_string` and TOML's `from_str` are parameters, an error of
-- theirs `none`.
use dnser.Base.{
  ℕ, ◌<◌, ◌≡◌, ◌↔◌, ◌==◌, List, [], ◌∷◌, if◌then◌else◌, Result, ok, err, arith, Option, none, some,
  ◌>>=◌, >>=-eq-ok, ap, ◌∙◌,
}
use dnser.Base.Bytes.{Bytes}

-- The octets of the address, and the port.
pub record SocketAddr : Type 0 where
  pub ip : Bytes
  pub port : ℕ

abbrev default_port : ℕ
default_port = 1053

pub record ServerConfig : Type 0 where
  pub listen : SocketAddr
  pub workers : ℕ
  pub tokio_threads : ℕ
  pub shutdown_drain_secs : ℕ
  pub tcp_idle_timeout_secs : ℕ
  pub tcp_max_connections : ℕ
  pub udp_max_inflight : ℕ

pub record ResolverConfig : Type 0 where
  pub upstreams : List SocketAddr
  pub timeout_ms : ℕ

pub record CacheConfig : Type 0 where
  pub max_entries : ℕ
  pub reaper_interval_secs : ℕ
  pub max_negative_ttl_secs : ℕ

pub data LogLevel : Type 0 where
  trace debug info warn error : LogLevel

pub data LogFormat : Type 0 where
  pretty json : LogFormat

pub record LoggingConfig : Type 0 where
  pub level : LogLevel
  pub format : LogFormat

abbrev pub logging_default : LoggingConfig
logging_default = record { level = info; format = pretty }

pub record Config : Type 0 where
  pub server : ServerConfig
  pub logging : LoggingConfig
  pub resolver : ResolverConfig
  pub cache : CacheConfig

abbrev pub server_default : ServerConfig
server_default = record {
  listen = record { ip = 0 ∷ 0 ∷ 0 ∷ 0 ∷ []; port = default_port };
  workers = 1;
  tokio_threads = 0;
  shutdown_drain_secs = 5;
  tcp_idle_timeout_secs = 10;
  tcp_max_connections = 1000;
  udp_max_inflight = 1000;
}

abbrev pub resolver_default : ResolverConfig
resolver_default = record {
  upstreams =
      record { ip = 8 ∷ 8 ∷ 8 ∷ 8 ∷ []; port = 53 }
      ∷ record { ip = 1 ∷ 1 ∷ 1 ∷ 1 ∷ []; port = 53 }
      ∷ [];
  timeout_ms = 2000;
}

abbrev pub cache_default : CacheConfig
cache_default = record {
  max_entries = 10000;
  reaper_interval_secs = 30;
  max_negative_ttl_secs = 3600;
}

pub data ConfigError : Type 0 where
  io parse : ConfigError
  zero_cache_capacity zero_reaper_interval zero_workers zero_tcp_idle_timeout : ConfigError
  zero_tcp_max_connections zero_udp_max_inflight zero_max_negative_ttl : ConfigError

unfoldable pub validate : Config → Result ConfigError (Unit {0})
validate c =
    if c.server.workers == 0
    then err zero_workers
    else if c.server.tcp_idle_timeout_secs == 0
    then err zero_tcp_idle_timeout
    else if c.server.tcp_max_connections == 0
    then err zero_tcp_max_connections
    else if c.server.udp_max_inflight == 0
    then err zero_udp_max_inflight
    else if c.cache.max_entries == 0
    then err zero_cache_capacity
    else if c.cache.reaper_interval_secs == 0
    then err zero_reaper_interval
    else if c.cache.max_negative_ttl_secs == 0
    then err zero_max_negative_ttl
    else ok tt

-- A configuration is accepted exactly where the number of workers, the idle timeout, both limits, the
-- cache's capacity, the reaper's interval and the cap on negative ttls are positive.
pub validate_iff :
    (c : Config)
    → (validate c ≡ ok tt) ↔ (
        (0 < c.server.workers)
        × (0 < c.server.tcp_idle_timeout_secs)
        × (0 < c.server.tcp_max_connections)
        × (0 < c.server.udp_max_inflight)
        × (0 < c.cache.max_entries)
        × (0 < c.cache.reaper_interval_secs)
        × (0 < c.cache.max_negative_ttl_secs))
unfolding validate
validate_iff c = ground arith

abbrev pub default : Config
default = record {
  server = server_default;
  logging = logging_default;
  resolver = resolver_default;
  cache = cache_default;
}

module _ {FilePath : Type 0} (read_to_string : FilePath → Option Bytes)
    (from_str : Bytes → Option Config) where
  abbrev parsed_config : Option Config → Result ConfigError Config
  parsed_config none = err parse
  parsed_config (some config) = ok config

  abbrev read_config : Option Bytes → Result ConfigError Config
  read_config none = err io
  read_config (some s) = parsed_config (from_str s)

  abbrev config_of : Option FilePath → Result ConfigError Config
  config_of none = ok default
  config_of (some p) = read_config (read_to_string p)

  unfoldable pub load : Option FilePath → Result ConfigError Config
  load path = do config ← config_of path; valid ← validate config; ok config

  pub load-validate :
      (path : Option FilePath) (config : Config) → load path ≡ ok config → validate config ≡ ok tt
  unfolding load
  load-validate path config e =
      let (config', p, q) = >>=-eq-ok (config_of path) _ e in
      let (valid, r, s) = >>=-eq-ok (validate config') _ q in ap validate (unwrapped s) ∙ r
    where
      unwrapped : {a b : Config} → ◌≡◌ {A = Result ConfigError Config} (ok a) (ok b) → b ≡ a
      unwrapped h = ground (arith, h)
