-- ===== src/Binary/Whole.antt =====
-- The program from its arguments to its end.
use dnser.Base.{
  ℕ, ◌<◌, ◌≡◌, ◌≢◌, refl, ap, sym, subst, Bool, true, false, Option, some, List, ok, arith,
}
use dnser.Base.Bytes.{Bytes}
use dnser.Cache.{Shard}
use dnser.Cache.Keys.{HashCall}
use dnser.Config.{Config, SocketAddr, load}
use dnser.Binary.{
  finished, returned, await_all, config_path, parse_args, init_logging, worker_threads, run, ran,
  main,
}
use dnser.Server.Life.{Life, LifeEvent, signal, react, live, spawned_by, all_returned}
use dnser.Server.Life.Returns.{Told, shutdown_returns}
use dnser.Server.Life.Shutdown.{Drained}
use dnser.Server.Life.Stages.{receives, own}
use dnser.Server.Startup.{Server, start}
use dnser.Server.Startup.Sockets.{IsBind, start_lem}
use dnser.Server.Tasks.{Workers, start_workers}
use dnser.Server.Tasks.Permits.{total_running}

worker_threads-ne-zero : (config : Config) → worker_threads config ≢ some 0
unfolding worker_threads
worker_threads-ne-zero config e = ground (arith, e)

module _ {Socket : Type 0} (bind : ℕ → SocketAddr → Option Socket)
    (local_addr : Socket → SocketAddr) (bind_upstream : SocketAddr → Bool)
    (bind_listener : SocketAddr → Option Socket) (iter : Shard → Shard)
    (hash_one : List HashCall → ℕ) where
  -- What is left of a server that was signalled after `before`.
  abbrev pub end_of : List LifeEvent → List LifeEvent → Server Socket → Life
  end_of before after server =
      live iter hash_one after
        (react iter hash_one signal (live iter hash_one before (spawned_by server)))

  run_started :
      (before after : List LifeEvent) (config : Config) (server : Server Socket)
      → start bind local_addr bind_upstream bind_listener config ≡ some server
      → all_returned (end_of before after server) ≡ true
      → run bind local_addr bind_upstream bind_listener iter hash_one before after config
        ≡ returned (end_of before after server)
  unfolding run await_all
  run_started before after config server s ends = rw (s, ends, run) refl

  main_finished :
      (read_to_string : Bytes → Option Bytes) (from_str : Bytes → Option Config)
      (before after : List LifeEvent) (args : List Bytes) (path : Option Bytes) (config : Config)
      (server : Server Socket)
      → parse_args args ≡ config_path path
      → load read_to_string from_str path ≡ ok config
      → start bind local_addr bind_upstream bind_listener config ≡ some server
      → all_returned (end_of before after server) ≡ true
      → main bind local_addr bind_upstream bind_listener iter hash_one read_to_string from_str true
          before after args
        ≡ finished
            (init_logging config.logging)
            (worker_threads config)
            (end_of before after server)
  unfolding main
  main_finished read_to_string from_str before after args path config server a l s ends =
      rw (a, main)
        (rw l (
          ap (ran bind local_addr bind_upstream bind_listener iter hash_one config)
            (run_started before after config server s ends)))

  -- The program, given arguments that name a configuration which loads, a server that starts, and a
  -- runtime that builds: once a signal comes, after whatever happened before, and each of the
  -- configured workers is told, runs into its drain's timeout, joins as many tasks as datagrams
  -- came in for it and finds its set empty, and the listener is told, every task that `shutdown`
  -- awaits has returned, and so `main` returns `Ok(())`: no query of a UDP worker runs, every
  -- permit for them of the configured limit is free, the reaper is aborted; and the runtime was not
  -- asked for 0 threads. Nothing is said of the tasks of TCP
  -- connections, which `shutdown` does not await.
  pub main_returns :
      (read_to_string : Bytes → Option Bytes) (from_str : Bytes → Option Config)
      (before after : List LifeEvent) (args : List Bytes) (path : Option Bytes) (config : Config)
      (server : Server Socket)
      → IsBind bind local_addr
      → parse_args args ≡ config_path path
      → load read_to_string from_str path ≡ ok config
      → start bind local_addr bind_upstream bind_listener config ≡ some server
      → ((i : ℕ) → i < config.server.workers → Drained i (receives (own i before)) after)
      → Told after
      → (let life = end_of before after server in
          (main bind local_addr bind_upstream bind_listener iter hash_one read_to_string from_str
              true before after args
            ≡ finished (init_logging config.logging) (worker_threads config) life)
          × (all_returned life ≡ true)
          × (total_running life.workers.pools ≡ 0)
          × (life.workers.permits ≡ config.server.udp_max_inflight)
          × (life.reaping ≡ false)
          × (worker_threads config ≢ some 0))
  main_returns read_to_string from_str before after args path config server laws a l s drained
        told =
      let shared : server.workers
          ≡ start_workers config.server.udp_max_inflight config.server.workers =
        (start_lem bind local_addr laws read_to_string from_str path bind_upstream bind_listener
          config server l s).2 in
      let Ends : Workers → Type 0 = λ w.
        let life : Life = live iter hash_one after (
          react iter hash_one signal
            (live iter hash_one before (record (spawned_by server) { workers = w }))) in
        (all_returned life ≡ true)
        × (total_running life.workers.pools ≡ 0)
        × (life.workers.permits ≡ config.server.udp_max_inflight)
        × (life.reaping ≡ false) in
      let (returns, idle, free, aborted) : Ends server.workers = subst Ends (sym shared) (
        shutdown_returns iter hash_one config.server.udp_max_inflight config.server.workers
          server.tcp_connections server.cache before after drained told) in
      (
        main_finished read_to_string from_str before after args path config server a l s returns,
        returns,
        idle,
        free,
        aborted,
        worker_threads-ne-zero config,
      )
