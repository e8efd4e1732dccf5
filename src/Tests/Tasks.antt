-- ===== src/Tests/Tasks.antt =====
-- The theorems on the workers of crates/dnser-server at concrete runs.
use dnser.Base.{ℕ, ◌+◌, ◌≡◌, ◌≤◌, List, [], ◌∷◌, ◌++◌}
use dnser.Server.Tasks.{
  Pool, draining, stopped, Event, received, task_ends, joined, join_set_empty, drain_timeout,
  run_events, start_workers, run_pool,
}
use dnser.Server.Tasks
use dnser.Server.Tasks.Accept.{
  TcpEvent, accepted, connection_ends, shutdown, run_listener, start_listener, connections_add_up,
}
use dnser.Server.Tasks.Permits.{total_running, permits_add_up}

-- Two workers under a limit of 1: the second finds no permit until the first is cut off.
abbrev events : List (ℕ × Event)
events =
    (0, received) ∷ (1, received) ∷ (0, Tasks.shutdown) ∷ (0, drain_timeout) ∷ (1, received) ∷ []

permits_add_up_example :
    (run_events events (start_workers 1 2)).permits
      + total_running (run_events events (start_workers 1 2)).pools
    ≡ 1
permits_add_up_example = permits_add_up 1 2 events

-- A third connection finds no permit.
abbrev connections : List TcpEvent
connections = accepted ∷ accepted ∷ accepted ∷ connection_ends ∷ []

connections_add_up_example :
    ((run_listener connections (start_listener 2)).permits
        + (run_listener connections (start_listener 2)).open_connections
      ≡ 2)
    × ((run_listener (connections ++ shutdown ∷ accepted ∷ []) (start_listener 2)).open_connections
        ≤ (run_listener connections (start_listener 2)).open_connections)
connections_add_up_example = connections_add_up 2 connections (accepted ∷ [])
