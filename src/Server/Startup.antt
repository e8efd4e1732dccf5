-- ===== src/Server/Startup.antt =====
-- start and bind_udp_sockets of crates/dnser-server/src/lib.rs. The sockets are the operating system's:
-- `bind` is its call number `n`, and an error of its is `none`. Spawning a task is entering its state.
pub mod Sockets
use dnser.Base.{
  ℕ, zero, suc, ◌+◌, ◌-◌, ◌*◌, ◌^◌, ◌%◌, ◌≤◌, ◌<◌, ◌≡◌, refl, ap, sym, subst, ◌∙◌, Bool, true,
  false, ◌&&◌, Option, none, some, List, [], ◌∷◌, All, length, if◌then◌else◌, arith, Option-cases,
  inl, inr, ok,
}
use dnser.Cache.{Cache, from_secs}
use dnser.Cache
use dnser.Config.{Config, SocketAddr, ResolverConfig, validate, validate_iff}
use dnser.Server.Tasks.{Workers, start_workers}

-- `Resolver::new`: one socket for each upstream; the timeout in nanoseconds.
pub record Resolver : Type 0 where
  pub upstreams : List SocketAddr
  pub timeout : ℕ

-- The running server: what the tasks share, and the handle.
pub record Server (Socket : Type 0) : Type 0 where
  pub resolver : Resolver
  pub cache : Cache
  pub reaper_interval : ℕ
  pub udp_addr : SocketAddr
  pub udp_sockets : List Socket
  pub workers : Workers
  pub drain_timeout : ℕ
  pub tcp_listener : Socket
  pub tcp_addr : SocketAddr
  pub tcp_connections : ℕ
  pub idle_timeout : ℕ

abbrev pub all_bound : (SocketAddr → Bool) → List SocketAddr → Bool
all_bound binds [] = true
all_bound binds (addr ∷ addrs) = binds addr && all_bound binds addrs

abbrev pub cons_bound {ℓ} : {A : Type ℓ} → Option A → Option (List A) → Option (List A)
cons_bound none rest = none
cons_bound (some x) none = none
cons_bound (some x) (some xs) = some (x ∷ xs)

module _ {Socket : Type 0} (bind : ℕ → SocketAddr → Option Socket)
    (local_addr : Socket → SocketAddr) where
  -- `for _ in 1..count`, from call number `n` on.
  unfoldable pub bind_rest : ℕ → ℕ → SocketAddr → Option (List Socket)
  bind_rest n zero resolved = some []
  bind_rest n (suc count) resolved = cons_bound (bind n resolved) (bind_rest (n + 1) count resolved)

  abbrev pub bound : Socket → Option (List Socket) → Option (SocketAddr × List Socket)
  bound first none = none
  bound first (some rest) = some (local_addr first, first ∷ rest)

  unfoldable pub bind_udp_sockets : SocketAddr → ℕ → Option (SocketAddr × List Socket)
  bind_udp_sockets listen count = elim (bind 0 listen) [
    | none ↦ none
    | some first ↦ bound first (bind_rest 1 (count - 1) (local_addr first))
  ]

  -- `max_negative_ttl_secs as u32` keeps 32 bits.
  abbrev pub start_cache : Config → Cache
  start_cache config =
      Cache.new config.cache.max_entries (config.cache.max_negative_ttl_secs % 2 ^ 32)

  abbrev pub started : Config → SocketAddr → List Socket → Option Socket → Option (Server Socket)
  started config udp_addr udp_sockets none = none
  started config udp_addr udp_sockets (some listener) = some (record {
    resolver = record {
      upstreams = config.resolver.upstreams;
      timeout = config.resolver.timeout_ms * 10 ^ 6;
    };
    cache = start_cache config;
    reaper_interval = from_secs config.cache.reaper_interval_secs;
    udp_addr = udp_addr;
    udp_sockets = udp_sockets;
    workers = start_workers config.server.udp_max_inflight (length udp_sockets);
    drain_timeout = from_secs config.server.shutdown_drain_secs;
    tcp_listener = listener;
    tcp_addr = local_addr listener;
    tcp_connections = config.server.tcp_max_connections;
    idle_timeout = from_secs config.server.tcp_idle_timeout_secs;
  })

  -- `bind_upstream` and `bind_listener` are the sockets that the resolver and the TCP worker ask for.
  unfoldable pub start :
      (SocketAddr → Bool) → (SocketAddr → Option Socket) → Config → Option (Server Socket)
  start bind_upstream bind_listener config =
      if all_bound bind_upstream config.resolver.upstreams
      then elim (bind_udp_sockets config.server.listen config.server.workers) [
        | none ↦ none
        | some (udp_addr, udp_sockets) ↦
            started config udp_addr udp_sockets (bind_listener config.server.listen)
      ]
      else none
