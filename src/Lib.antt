-- ===== src/Lib.antt =====
-- dnser is a caching DNS forwarder: it parses a query from UDP or TCP, answers it from its cache or
-- from an upstream server, and serialises the response. This library models its wire format, its
-- cache, its resolver, the framing for TCP, the handling of a query, the loops around it, the
-- program from its arguments to its end, and the mocks that its tests share.
--
-- Base holds what the parts share: Result (the outcomes of fallible code), lists, bytes, binary
-- digits. Proto is the crate crates/dnser-proto, one file per source file:
--   Proto/Errors     src/error.rs           ParseError, WriteError
--   Proto/Codes      opcode, rcode, class, record_type
--   Proto/Utf8       std::str::from_utf8, by the byte classes its documentation gives
--   Proto/Reader     src/reader.rs          read_u8, read_u16, read_u32, read_bytes, read_name
--   Proto/Writer     src/writer.rs          write_*, reserve_u16, backfill_u16, write_name
--   Proto/Header     src/header.rs          flags, accessors, reply_to, parse, write
--   Proto/Question   src/question.rs        parse, write
--   Proto/Rdata      src/rdata.rs           RData::parse, parse_inner, write
--   Proto/Record     src/resource_record.rs parse, write, the EDNS accessors
--   Proto/Message    src/message.rs         parse, build_writer, to_bytes, opt
-- Proto/Name and Proto/Codec are the specification: how a name lies in a buffer, labels and
-- pointers, and what it is for a `write` and a `parse` to undo one another inside a message.
--
-- Cache is crates/dnser-cache: Cache/Keys the stored key and the borrowed lookup with their hashes,
-- Cache the shards with get, insert, eviction, a method as one step, which is what the code does if
-- one call runs at a time. Cache/Threads is insert and evict_expired once more, called by any
-- number of threads: their accesses to the counter and their sections under a shard's lock as the
-- steps of a relation. The hasher, which std seeds at random, and the order in which a HashMap is
-- iterated are parameters; what std promises of the order is the record IsIteration of Cache/Count.
-- Cache/Reference is the cache's specification, one map without shards, capacity and eviction.
-- Net is crates/dnser-net/src/framing.rs, on the bytes of a stream.
-- Resolver is crates/dnser-resolver: Resolver the table of the queries in flight with
-- allocate_and_insert, what recv_loop does with a datagram, and parse_validated_response;
-- Resolver/Query is query and resolve of src/lib.rs and src/tcp.rs, for one query, with what the
-- network does, the random numbers and the order in which the upstreams complete as arguments;
-- Resolver/Table is many queries over one table, with InFlightGuard, as a step relation: what
-- recv_loop and a query do under the lock and outside it are different steps.
-- Server is crates/dnser-server: Server/Handler is src/handler.rs with process_query, which
-- calls Cache.get and, with what the resolver returns, Cache.insert; Server/Worker is
-- handle_query of src/worker.rs, which parses the datagram, calls process_query and serialises;
-- Server/Tcp is handle_conn of src/tcp.rs, where what the resolver returns and what other tasks
-- do to the cache is given anew for each query; Server/Tasks and Server/Tasks/Accept are the
-- loops of the two workers with their permits; Server/Startup is start and bind_udp_sockets of
-- src/lib.rs; Server/Life is the tasks that start spawns, the reaper among them, and
-- ServerHandle::shutdown, or the end of a handle that was not shut down, as a function of the
-- events. What the resolver returns is a parameter of the handlers; Server/Served puts
-- Resolver/Query in its place, and Server/Wire is what a client then sees, in bytes.
-- Config is crates/dnser-config: the sections, their defaults, validate, and load over the reading of
-- a file and the parsing of TOML, which are parameters.
-- Binary is crates/dnser/src/main.rs: parse_args, init_logging and main, over load and run.
-- Testing is crates/dnser-testing: the builders (Testing, Testing/Fixtures), the responders
-- (Testing/Mocks), the mock upstreams and one-shot clients (Testing/Peers); Testing/Echo and
-- Testing/Fallback put the resolver over them, and Testing/Datagrams is about their buffers.
--
-- Not modelled: logging and the texts of errors; the sockets' own errors after they are bound,
-- the timers and the operating system's signals, which are I/O; tokio, tracing_subscriber and
-- the parser of TOML, which are other packages; the tests, which are examples of what the
-- theorems range over. recv_loop's end by an error of its socket is left out. The tasks of TCP
-- connections are counted and not followed to their end, since nothing awaits them.
-- process_query runs as one step on the cache; Server/Served also lets an answer come in after
-- other queries changed it.
--
-- A method that takes `&mut self` takes the state and returns it; an error drops it, as `?` does in
-- all callers. A `String` is the list of its UTF-8 bytes, a `HashMap` an association list, a machine
-- integer a natural number with its wrap-around written out.
--
-- Loops run on fuel and return `stuck` without it. `read_name` has 128 + 254 + 1 rounds: every round
-- makes a jump, of which 128 are allowed, or a longer name, of 253 bytes at most. The loops of TXT
-- and OPT data have a round more than the length of the data, since each takes a byte at least.
-- `handle_conn` has a round for each frame, and a frame takes a byte at least of the stream.
pub mod Base
pub mod Proto
pub mod Cache
pub mod Net
pub mod Resolver
pub mod Server
pub mod Config
pub mod Testing
pub mod Binary
pub mod Tests
