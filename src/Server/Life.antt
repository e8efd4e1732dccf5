-- ===== src/Server/Life.antt =====
-- ServerHandle and run of crates/dnser-server/src/lib.rs: the workers, the TCP listener and the reaper
-- that `start` spawns, run together until a signal comes, and shut down. What the tasks of queries and
-- connections do is in the other modules; here they store responses in the cache.
pub mod Track
pub mod Stages
pub mod Shutdown
pub mod Returns
pub mod Serving
use dnser.Base.{
  ℕ, ◌≡◌, refl, Bool, true, false, ◌&&◌, not, List, [], ◌∷◌, if◌then◌else◌, Option, none, some,
}
use dnser.Cache.{Cache, Shard, insert, evict_expired}
use dnser.Cache.Keys.{HashCall}
use dnser.Config.{Config}
use dnser.Proto.Message.{Message}
use dnser.Server.Startup
use dnser.Server.Startup.{Server}
use dnser.Server.Tasks
use dnser.Server.Tasks.{Mode, Pool, Workers, step}
use dnser.Server.Tasks.Accept
use dnser.Server.Tasks.Accept.{Listener, tcp_transition, start_listener}

-- The tasks behind a `ServerHandle`; `signalled` is whether `changed()` returns, in every task:
-- `true` was sent over the watch channel, or its sender was dropped, which ends the loops as well.
pub record Life : Type 0 where
  pub workers : Workers
  pub listener : Listener
  pub cache : Cache
  pub reaping : Bool
  pub signalled : Bool

-- `signal` is the call of `shutdown`, `handle_dropped` the end of a `ServerHandle` that was not
-- shut down; `tick` is a round of the reaper, `store` an insertion by a task.
pub data LifeEvent : Type 0 where
  worker : ℕ → Tasks.Event → LifeEvent
  tcp : Accept.TcpEvent → LifeEvent
  tick : ℕ → LifeEvent
  store : ℕ → Message → LifeEvent
  signal handle_dropped : LifeEvent

-- The arm of `shutdown.changed()`, which matches `Ok` and `Err` alike.
abbrev pub hears : Bool → Tasks.Event → Bool
hears signalled Tasks.shutdown = signalled
hears signalled _ = true

abbrev pub tcp_hears : Bool → Accept.TcpEvent → Bool
tcp_hears signalled Accept.shutdown = signalled
tcp_hears signalled _ = true

-- What `start` spawns.
abbrev pub spawned : ℕ → ℕ → ℕ → Cache → Life
spawned limit workers connections cache = record {
  workers = Tasks.start_workers limit workers;
  listener = start_listener connections;
  cache = cache;
  reaping = true;
  signalled = false;
}

abbrev pub spawned_by : {Socket : Type 0} → Server Socket → Life
spawned_by server = record {
  workers = server.workers;
  listener = start_listener server.tcp_connections;
  cache = server.cache;
  reaping = true;
  signalled = false;
}

module _ (iter : Shard → Shard) (hash_one : List HashCall → ℕ) where
  -- `send(true)` and `reaper.abort()` are `signal`; a handle that is dropped detaches the reaper.
  unfoldable pub react : LifeEvent → Life → Life
  react (worker i e) s =
      if hears s.signalled e then record s { workers = step i e s.workers } else s
  react (tcp e) s =
      if tcp_hears s.signalled e then record s { listener = tcp_transition e s.listener } else s
  react (tick now) s = if s.reaping then record s { cache = evict_expired now s.cache } else s
  react (store now m) s = record s { cache = insert iter hash_one now m s.cache }
  react signal s = record s { signalled = true; reaping = false }
  react handle_dropped s = record s { signalled = true }

  unfoldable pub live : List LifeEvent → Life → Life
  live [] s = s
  live (e ∷ events) s = live events (react e s)

abbrev pub is_stopped : Mode → Bool
is_stopped Tasks.stopped = true
is_stopped _ = false

abbrev pub all_stopped : List Pool → Bool
all_stopped [] = true
all_stopped (p ∷ pools) = is_stopped p.mode && all_stopped pools

-- Whether every `h.await` of `shutdown` returns: the tasks have returned from their `run`.
unfoldable pub all_returned : Life → Bool
all_returned s = all_stopped s.workers.pools && not s.listener.listening
