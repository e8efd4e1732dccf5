-- ===== src/Tests/Startup.antt =====
-- The start of crates/dnser-server from a concrete configuration.
use dnser.Base.{
  ℕ, ◌%◌, ◌^◌, ◌<◌, ◌≡◌, refl, Bool, true, Option, some, [], ◌∷◌, All, length, ◌==◌, if◌then◌else◌,
  arith, ok,
}
use dnser.Cache
use dnser.Base.Bytes.{Bytes}
use dnser.Config.{
  load, Config, SocketAddr, validate, server_default, logging_default, resolver_default,
  cache_default,
}
use dnser.Server.Startup.{Server, start, started}
use dnser.Server.Startup.Sockets.{IsBind, start_lem}
use dnser.Server.Tasks.{start_workers}

-- Three workers on a port that the system chooses.
abbrev pub config : Config
config = record {
  server = record server_default {
    listen = record server_default.listen { port = 0 };
    workers = 3;
  };
  logging = logging_default;
  resolver = resolver_default;
  cache = record cache_default { max_negative_ttl_secs = 4294967296 };
}

-- A socket is its address.
abbrev pub bind : ℕ → SocketAddr → Option SocketAddr
bind n addr = some (if addr.port == 0 then record addr { port = 40000 } else addr)

abbrev chosen : SocketAddr
chosen = record config.server.listen { port = 40000 }

pub bind-IsBind : IsBind bind (λ s. s)
bind-IsBind = record {
  binds_given = λ n addr s e known. ground (arith, e, known);
  assigns = λ n addr s e. ground (arith, e);
}

abbrev pub binds_all : SocketAddr → Bool
binds_all addr = true

abbrev pub server : Server SocketAddr
server = record {
  resolver = record { upstreams = config.resolver.upstreams; timeout = 2_000_000_000 };
  cache = Cache.new 10000 0;
  reaper_interval = 30_000_000_000;
  udp_addr = chosen;
  udp_sockets = chosen ∷ chosen ∷ chosen ∷ [];
  workers = start_workers 1000 3;
  drain_timeout = 5_000_000_000;
  tcp_listener = chosen;
  tcp_addr = chosen;
  tcp_connections = 1000;
  idle_timeout = 10_000_000_000;
}

pub starts : start bind (λ s. s) binds_all (bind 0) config ≡ some server
unfolding start dnser.Server.Startup.bind_udp_sockets dnser.Server.Startup.bind_rest
starts = refl

-- The file is one byte long, which stands for `config`.
abbrev read_to_string : ℕ → Option Bytes
read_to_string path = some (b'c' ∷ [])

abbrev pub from_str : Bytes → Option Config
from_str s = some config

is_loaded : load read_to_string from_str (some 1) ≡ ok config
unfolding load dnser.Config.validate
is_loaded = refl

-- The configured cap is 2 ^ 32, and the cache has 0.
start_lem_example :
    (length server.udp_sockets ≡ 3)
    × All (λ t. t ≡ chosen) server.udp_sockets
    × (server.workers ≡ start_workers 1000 3)
    × (0 < server.reaper_interval)
    × (server.cache.max_negative_ttl ≡ 4294967296 % 2 ^ 32)
start_lem_example =
    start_lem bind (λ s. s) bind-IsBind read_to_string from_str (some 1) binds_all (bind 0) config
      server is_loaded starts
