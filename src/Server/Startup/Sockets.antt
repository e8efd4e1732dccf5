-- ===== src/Server/Startup/Sockets.antt =====
-- What a server that has started is made of.
use dnser.Base.{
  ℕ, zero, suc, ◌+◌, ◌-◌, ◌^◌, ◌%◌, ◌<◌, ◌≡◌, refl, ap, subst, ◌∙◌, Bool, Option, some, List, [],
  ◌∷◌, All, length, arith, Option-cases, Bool-cases, inl, inr, ok,
}
use dnser.Cache
use dnser.Cache.{from_secs}
use dnser.Base.Bytes.{Bytes}
use dnser.Config.{Config, SocketAddr, load, load-validate, validate_iff}
use dnser.Server.Startup.{Server, all_bound, bind_rest, bind_udp_sockets, start}
use dnser.Server.Tasks.{start_workers}

-- What the operating system promises of `bind`: the socket has the address asked for, and with port 0
-- a port that it chooses, which is not 0.
pub record IsBind {Socket : Type 0} (bind : ℕ → SocketAddr → Option Socket)
    (local_addr : Socket → SocketAddr) : Type 0 where
  pub binds_given :
      (n : ℕ) (addr : SocketAddr) (s : Socket)
      → bind n addr ≡ some s
      → 0 < addr.port
      → local_addr s ≡ addr
  pub assigns :
      (n : ℕ) (addr : SocketAddr) (s : Socket) → bind n addr ≡ some s → 0 < (local_addr s).port

module _ {Socket : Type 0} (bind : ℕ → SocketAddr → Option Socket)
    (local_addr : Socket → SocketAddr) (laws : IsBind bind local_addr) where
  bind_rest-All :
      (n count : ℕ) (resolved : SocketAddr) (rest : List Socket)
      → 0 < resolved.port
      → bind_rest bind local_addr n count resolved ≡ some rest
      → All (λ s. local_addr s ≡ resolved) rest × (length rest ≡ count)
  unfolding bind_rest
  bind_rest-All n zero resolved rest known e =
      subst (λ t. All (λ s. local_addr s ≡ resolved) t × (length t ≡ zero)) {x = []}
        (ground (arith, e)) (tt, refl)
  bind_rest-All n (suc count) resolved rest known e = elim (Option-cases (bind n resolved)) [
    | inl failed ↦ absurd (ground (arith, failed, e))
    | inr (s, p) ↦ elim (Option-cases (bind_rest bind local_addr (n + 1) count resolved)) [
      | inl failed ↦ absurd (ground (arith, p, failed, e))
      | inr (later, q) ↦
          let (alike, size) = bind_rest-All (n + 1) count resolved later known q in
          subst (λ t. All (λ s. local_addr s ≡ resolved) t × (length t ≡ suc count)) {x = s ∷ later}
            (ground (arith, p, q, e))
            ((laws.binds_given n resolved s p known, alike), omega (arith, size))
    ]
  ]

  -- All the sockets share one port, and at least one is bound.
  bind_udp_sockets_alike :
      (listen resolved : SocketAddr) (count : ℕ) (sockets : List Socket)
      → bind_udp_sockets bind local_addr listen count ≡ some (resolved, sockets)
      → All (λ s. local_addr s ≡ resolved) sockets × (length sockets ≡ suc (count - 1))
  unfolding bind_udp_sockets
  bind_udp_sockets_alike listen resolved count sockets e = elim (Option-cases (bind 0 listen)) [
    | inl failed ↦ absurd (ground (arith, failed, e))
    | inr (first, p) ↦
        elim (Option-cases (bind_rest bind local_addr 1 (count - 1) (local_addr first))) [
          | inl failed ↦ absurd (ground (arith, p, failed, e))
          | inr (rest, q) ↦
              let (alike, size) =
                bind_rest-All 1 (count - 1) (local_addr first) rest (laws.assigns 0 listen first p)
                  q in
              subst
                (λ (t : SocketAddr × List Socket).
                  All (λ s. local_addr s ≡ t.0) t.1 × (length t.1 ≡ suc (count - 1)))
                {x = (local_addr first, first ∷ rest)} {y = (resolved, sockets)}
                (ground (arith, p, q, e)) ((refl, alike), omega (arith, size))
        ]
  ]

  -- What `start` makes its server from.
  start_parts :
      (bind_upstream : SocketAddr → Bool) (bind_listener : SocketAddr → Option Socket)
      (config : Config) (s : Server Socket)
      → start bind local_addr bind_upstream bind_listener config ≡ some s
      → (bind_udp_sockets bind local_addr config.server.listen config.server.workers
          ≡ some (s.udp_addr, s.udp_sockets))
        × (s.workers ≡ start_workers config.server.udp_max_inflight (length s.udp_sockets))
        × (s.reaper_interval ≡ from_secs config.cache.reaper_interval_secs)
        × (s.cache.max_negative_ttl ≡ config.cache.max_negative_ttl_secs % 2 ^ 32)
  unfolding start Cache.new
  start_parts bind_upstream bind_listener config s e =
      elim (Bool-cases (all_bound bind_upstream config.resolver.upstreams)) [
        | inr failed ↦ absurd (ground (arith, failed, e))
        | inl upstreams ↦
            elim (Option-cases
              (bind_udp_sockets bind local_addr config.server.listen config.server.workers)) [
                | inl failed ↦ absurd (ground (arith, upstreams, failed, e))
                | inr ((addr, sockets), p) ↦
                    elim (Option-cases (bind_listener config.server.listen)) [
                      | inl failed ↦ absurd (ground (arith, upstreams, p, failed, e))
                      | inr (listener, q) ↦ (
                        ground (arith, upstreams, p, q, e),
                        ground (arith, upstreams, p, q, e),
                        ground (arith, upstreams, p, q, e),
                        ground (arith, upstreams, p, q, e),
                      )
                    ]
              ]
      ]

  -- A server that starts from a configuration that was loaded has one UDP socket for each
  -- worker, all with the address that is reported; its workers share the limit on queries in flight;
  -- its reaper runs at intervals that are not zero; and its cap on negative ttls is the configured
  -- one without the digits above 32.
  pub start_lem :
      {FilePath : Type 0} (read_to_string : FilePath → Option Bytes)
      (from_str : Bytes → Option Config) (path : Option FilePath)
      (bind_upstream : SocketAddr → Bool) (bind_listener : SocketAddr → Option Socket)
      (config : Config) (s : Server Socket)
      → load read_to_string from_str path ≡ ok config
      → start bind local_addr bind_upstream bind_listener config ≡ some s
      → (length s.udp_sockets ≡ config.server.workers)
        × All (λ t. local_addr t ≡ s.udp_addr) s.udp_sockets
        × (s.workers ≡ start_workers config.server.udp_max_inflight config.server.workers)
        × (0 < s.reaper_interval)
        × (s.cache.max_negative_ttl ≡ config.cache.max_negative_ttl_secs % 2 ^ 32)
  start_lem read_to_string from_str path bind_upstream bind_listener config s loaded e =
      let (workers, idle, tcp, udp, capacity, interval, cap) =
        (validate_iff config).0 (load-validate read_to_string from_str path config loaded) in
      let (bound, shared, reaper, negative) = start_parts bind_upstream bind_listener config s e in
      let (alike, size) =
        bind_udp_sockets_alike config.server.listen s.udp_addr config.server.workers s.udp_sockets
          bound in
      let count : length s.udp_sockets ≡ config.server.workers = omega (arith, size, workers) in
      (
        count,
        alike,
        shared ∙ ap (start_workers config.server.udp_max_inflight) count,
        omega (arith, reaper, interval),
        negative,
      )
