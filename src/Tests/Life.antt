-- ===== src/Tests/Life.antt =====
-- The program of crates/dnser from its arguments to its end, at concrete events.
use dnser.Base.{
  ℕ, zero, suc, ◌<◌, ◌≡◌, ◌≢◌, ◌↔◌, refl, true, false, Option, some, none, List, [], ◌∷◌, arith, ok,
}
use dnser.Base.Bytes.{Bytes, str_eq}
use dnser.Binary.{finished, config_path, parse_args, parse_from, init_logging, worker_threads, main}
use dnser.Binary.Args.{AreOptions, parse_args_iff}
use dnser.Binary.Whole.{end_of, main_returns}
use dnser.Cache
use dnser.Config.{load, validate}
use dnser.Server.Life.{Life, LifeEvent, worker, tcp, tick, live, spawned, all_returned}
use dnser.Server.Life.Returns.{Told}
use dnser.Server.Life.Serving.{IsServing, serves_until_signal}
use dnser.Server.Life.Shutdown.{Drained}
use dnser.Server.Life.Stages.{own, receives}
use dnser.Server.Tasks.{received, recv_error, joined, shutdown, join_set_empty, drain_timeout}
use dnser.Server.Tasks.Accept
use dnser.Server.Tasks.Permits.{total_running}
use dnser.Tests.Cache.{constant_hash, in_order}
use dnser.Tests.Startup.{config, bind, bind-IsBind, binds_all, server, starts, from_str}

-- "-c f"
abbrev args : List Bytes
args = (b'-' ∷ b'c' ∷ []) ∷ (b'f' ∷ []) ∷ []

parse_args_iff_example :
    (parse_args args ≡ config_path (some (b'f' ∷ []))) ↔ AreOptions args none (some (b'f' ∷ []))
parse_args_iff_example = parse_args_iff args (some (b'f' ∷ []))

names_file : parse_args args ≡ config_path (some (b'f' ∷ []))
unfolding parse_args parse_from str_eq
names_file = refl

abbrev read_file : Bytes → Option Bytes
read_file path = some path

file_loads : load read_file from_str (some (b'f' ∷ [])) ≡ ok config
unfolding load validate
file_loads = refl

-- The second of three workers has a query that hangs.
abbrev before : List LifeEvent
before = worker 1 received ∷ []

abbrev after : List LifeEvent
after =
    worker 0 shutdown
    ∷ worker 1 shutdown
    ∷ worker 2 shutdown
    ∷ tcp Accept.shutdown
    ∷ worker 0 drain_timeout
    ∷ worker 1 drain_timeout
    ∷ worker 2 drain_timeout
    ∷ worker 1 joined
    ∷ worker 0 join_set_empty
    ∷ worker 1 join_set_empty
    ∷ worker 2 join_set_empty
    ∷ []

each-Drained : (i : ℕ) → i < 3 → Drained i (receives (own i before)) after
each-Drained zero h = record {
  told = [];
  waited = worker 1 shutdown ∷ worker 2 shutdown ∷ tcp Accept.shutdown ∷ [];
  joining = worker 1 drain_timeout ∷ worker 2 drain_timeout ∷ worker 1 joined ∷ [];
  rest = worker 1 join_set_empty ∷ worker 2 join_set_empty ∷ [];
  order = refl;
  enough = omega arith;
}
each-Drained (suc zero) h = record {
  told = worker 0 shutdown ∷ [];
  waited = worker 2 shutdown ∷ tcp Accept.shutdown ∷ worker 0 drain_timeout ∷ [];
  joining = worker 2 drain_timeout ∷ worker 1 joined ∷ worker 0 join_set_empty ∷ [];
  rest = worker 2 join_set_empty ∷ [];
  order = refl;
  enough = omega arith;
}
each-Drained (suc (suc zero)) h = record {
  told = worker 0 shutdown ∷ worker 1 shutdown ∷ [];
  waited = tcp Accept.shutdown ∷ worker 0 drain_timeout ∷ worker 1 drain_timeout ∷ [];
  joining = worker 1 joined ∷ worker 0 join_set_empty ∷ worker 1 join_set_empty ∷ [];
  rest = [];
  order = refl;
  enough = omega arith;
}
each-Drained (suc (suc (suc i))) h = absurd (omega arith)

after-Told : Told after
after-Told = record {
  front = worker 0 shutdown ∷ worker 1 shutdown ∷ worker 2 shutdown ∷ [];
  back =
      worker 0 drain_timeout
      ∷ worker 1 drain_timeout
      ∷ worker 2 drain_timeout
      ∷ worker 1 joined
      ∷ worker 0 join_set_empty
      ∷ worker 1 join_set_empty
      ∷ worker 2 join_set_empty
      ∷ [];
  order = refl;
}

abbrev left : Life
left = end_of bind (λ s. s) binds_all (bind 0) in_order constant_hash before after server

main_returns_example :
    (main bind
        (λ s. s)
        binds_all
        (bind 0)
        in_order
        constant_hash
        read_file
        from_str
        true
        before
        after
        args
      ≡ finished (init_logging config.logging) (worker_threads config) left)
    × (all_returned left ≡ true)
    × (total_running left.workers.pools ≡ 0)
    × (left.workers.permits ≡ 1000)
    × (left.reaping ≡ false)
    × (worker_threads config ≢ some 0)
main_returns_example =
    main_returns bind (λ s. s) binds_all (bind 0) in_order constant_hash read_file from_str before
      after args (some (b'f' ∷ [])) config server bind-IsBind names_file file_loads starts
      each-Drained after-Told

-- Errors of both sockets, and a round of the reaper.
abbrev unsignalled : List LifeEvent
unsignalled = worker 0 recv_error ∷ tcp Accept.accept_error ∷ worker 1 received ∷ tick 7 ∷ []

serves_until_signal_example :
    IsServing (live in_order constant_hash unsignalled (spawned 1 2 3 (Cache.new 2 60)))
    × (all_returned (live in_order constant_hash unsignalled (spawned 1 2 3 (Cache.new 2 60)))
        ≡ false)
serves_until_signal_example =
    serves_until_signal in_order constant_hash 1 2 3 (Cache.new 2 60) unsignalled tt
