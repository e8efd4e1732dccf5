-- ===== src/Binary.antt =====
-- crates/dnser/src/main.rs. The arguments are those behind the program's name; a path is its bytes;
-- what is printed is left out. The runtime and the subscriber are what main.rs asks of tokio and
-- tracing_subscriber.
pub mod Args
pub mod Whole
use dnser.Base.{
  ℕ, ◌≡◌, refl, Bool, true, false, ◌||◌, Option, none, some, List, [], ◌∷◌, if◌then◌else◌, ltb,
  Result, ok, err, stuck,
}
use dnser.Base.Bytes.{Bytes, str_eq}
use dnser.Cache.{Shard}
use dnser.Cache.Keys.{HashCall}
use dnser.Config
use dnser.Config.{Config, ConfigError, LogLevel, LogFormat, LoggingConfig, SocketAddr, load}
use dnser.Server.Life.{Life, LifeEvent, signal, react, live, spawned_by, all_returned}
use dnser.Server.Startup.{Server, start}

-- The path, or `process::exit` with its code.
pub data ArgsResult : Type 0 where
  config_path : Option Bytes → ArgsResult
  exits : ℕ → ArgsResult

-- "--config" and "-c"
abbrev pub is_config : Bytes → Bool
is_config arg =
    str_eq arg (b'-' ∷ b'-' ∷ b'c' ∷ b'o' ∷ b'n' ∷ b'f' ∷ b'i' ∷ b'g' ∷ [])
    || str_eq arg (b'-' ∷ b'c' ∷ [])

-- "--help" and "-h", "--version" and "-V"
abbrev pub is_info : Bytes → Bool
is_info arg =
    str_eq arg (b'-' ∷ b'-' ∷ b'h' ∷ b'e' ∷ b'l' ∷ b'p' ∷ [])
    || str_eq arg (b'-' ∷ b'h' ∷ [])
    || str_eq arg (b'-' ∷ b'-' ∷ b'v' ∷ b'e' ∷ b'r' ∷ b's' ∷ b'i' ∷ b'o' ∷ b'n' ∷ [])
    || str_eq arg (b'-' ∷ b'V' ∷ [])

-- The arms behind that of `--config`.
abbrev pub on_other : Bytes → ArgsResult
on_other arg = if is_info arg then exits 0 else exits 1

-- The loop of `parse_args`; a `--config` at the end has no path.
unfoldable pub parse_from : List Bytes → Option Bytes → ArgsResult
parse_from [] path = config_path path
parse_from (arg ∷ []) path = if is_config arg then exits 1 else on_other arg
parse_from (arg ∷ next ∷ args) path =
    let rest = parse_from args (some next) in if is_config arg then rest else on_other arg

unfoldable pub parse_args : List Bytes → ArgsResult
parse_args args = parse_from args none

-- `tracing::Level`
pub data Level : Type 0 where
  trace debug info warn error : Level

pub record Subscriber : Type 0 where
  pub max_level : Level
  pub json : Bool

abbrev pub level_of : LogLevel → Level
level_of Config.trace = trace
level_of Config.debug = debug
level_of Config.info = info
level_of Config.warn = warn
level_of Config.error = error

abbrev pub is_json : LogFormat → Bool
is_json Config.pretty = false
is_json Config.json = true

unfoldable pub init_logging : LoggingConfig → Subscriber
init_logging config = record { max_level = level_of config.level; json = is_json config.format }

-- `none` where the number of threads is left to tokio.
unfoldable pub worker_threads : Config → Option ℕ
worker_threads config =
    if ltb 0 config.server.tokio_threads then some config.server.tokio_threads else none

-- How `main` ends: by `process::exit`, with the error of the configuration, with an error of
-- `build` or of `start`, or with `Ok(())` once the server is shut down. `running` is `main` that
-- still awaits a task.
pub data Outcome : Type 0 where
  exited : ℕ → Outcome
  invalid_input : ConfigError → Outcome
  io_error : Outcome
  unloaded running : Outcome
  finished : Subscriber → Option ℕ → Life → Outcome

-- `start` fails, tasks are still awaited, or `run` has returned.
pub data RunResult : Type 0 where
  failed awaiting : RunResult
  returned : Life → RunResult

-- `ServerHandle::shutdown`, once `after` has happened since it was called: it returns when every
-- `h.await` has.
unfoldable pub await_all : Life → RunResult
await_all life = if all_returned life then returned life else awaiting

module _ {Socket : Type 0} (bind : ℕ → SocketAddr → Option Socket)
    (local_addr : Socket → SocketAddr) (bind_upstream : SocketAddr → Bool)
    (bind_listener : SocketAddr → Option Socket) (iter : Shard → Shard)
    (hash_one : List HashCall → ℕ) where
  -- `dnser_server::run`: what happens before the signal, and from then on.
  unfoldable pub run : List LifeEvent → List LifeEvent → Config → RunResult
  run before after config = elim (start bind local_addr bind_upstream bind_listener config) [
    | none ↦ failed
    | some server ↦ await_all (
        live iter hash_one after
          (react iter hash_one signal (live iter hash_one before (spawned_by server))))
  ]

  abbrev pub ran : Config → RunResult → Outcome
  ran config failed = io_error
  ran config awaiting = running
  ran config (returned life) = finished (init_logging config.logging) (worker_threads config) life

  -- `builds` is whether tokio builds the runtime.
  abbrev pub with_config :
      Bool → List LifeEvent → List LifeEvent → Result ConfigError Config → Outcome
  with_config builds before after (err e) = invalid_input e
  with_config builds before after stuck = unloaded
  with_config builds before after (ok config) =
      if builds then ran config (run before after config) else io_error

  unfoldable pub main :
      (Bytes → Option Bytes)
      → (Bytes → Option Config)
      → Bool
      → List LifeEvent
      → List LifeEvent
      → List Bytes
      → Outcome
  main read_to_string from_str builds before after args = elim (parse_args args) [
    | exits code ↦ exited code
    | config_path path ↦ with_config builds before after (load read_to_string from_str path)
  ]
