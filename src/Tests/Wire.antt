-- ===== src/Tests/Wire.antt =====
-- What a client of crates/dnser-server is sent, at concrete bytes.
use dnser.Base.{ℕ, ◌≤◌, ◌≡◌, ◌⊎◌, refl, some, List, [], ◌∷◌, length, All, arith, ok}
use dnser.Base.Bytes.{Bytes}
use dnser.Cache
use dnser.Proto.Codes
use dnser.Proto.Message
use dnser.Proto.Message.{Message, to_bytes}
use dnser.Proto.Message.Parts.{parsed_bounds, ShortName, ShortOwner}
use dnser.Resolver.Query.{resolve}
use dnser.Server.Handler.{query_udp_limit, build_truncated}
use dnser.Server.Served.{start, reap}
use dnser.Server.Tcp.{handle_conn}
use dnser.Server.Tcp.Pipeline.{stream_of}
use dnser.Server.Wire.{IsWireReply, handle_query-IsWireReply}
use dnser.Server.Wire.Stream.{bodies_of, InOrder, handle_conn-InOrder}
use dnser.Server.Worker.{handle_query}
use dnser.Tests.Cache.{constant_hash, in_order, empty_cache}
use dnser.Tests.Server.{datagram, sent}
use dnser.Tests.Tcp.{clock, after_reaping, stream, query, parses}

-- There is no upstream.
sends_servfail :
    (handle_query in_order constant_hash (resolve []) 0 1 datagram empty_cache).0 ≡ ok sent
unfolding resolve handle_query dnser.Server.Handler.process_query dnser.Server.Handler.answer
    dnser.Server.Handler.look_up dnser.Server.Handler.ask_upstream
    dnser.Server.Handler.build_servfail dnser.Server.Worker.reply_bytes query_udp_limit Message.opt
    Message.build_writer Message.parse Message.parse_body Message.parse_section
    Message.write_section to_bytes dnser.Proto.Header.parse dnser.Proto.Header.reply_to
    dnser.Proto.Header.write dnser.Proto.Reader.read_u16 dnser.Base.Bytes.slice
    dnser.Proto.Reader.new dnser.Proto.Question.parse dnser.Proto.Question.write
    dnser.Proto.Reader.read_name dnser.Proto.Reader.name_loop dnser.Proto.Reader.name_round
    dnser.Proto.Reader.start_state dnser.Proto.Utf8.from_utf8 Codes.record_type_try_from
    Codes.record_type_code Codes.is_known dnser.Proto.Writer.new dnser.Proto.Writer.write_name
    Cache.get Cache.find_lookup Cache.new Cache.shard_index
sends_servfail = refl

handle_query-IsWireReply_example :
    IsWireReply datagram sent
    × (q : Message) × (Message.parse datagram ≡ ok q)
    × ((length sent ≤ query_udp_limit q) ⊎ (to_bytes (build_truncated q) ≡ ok sent))
handle_query-IsWireReply_example =
    handle_query-IsWireReply in_order constant_hash 2 60 [] 0 1 datagram sent start (omega arith)
      sends_servfail

handle_conn-InOrder_example :
    (replies : List Bytes) × (stream_of replies
      ≡ some
          (handle_conn in_order constant_hash
            (λ n. resolve [])
            after_reaping
            clock
            60
            0
            stream
            empty_cache).written)
    × InOrder (bodies_of 60 stream) replies
handle_conn-InOrder_example =
    handle_conn-InOrder in_order constant_hash 2 60 (λ n. []) after_reaping clock
      (λ n c run. reap n run) 60 0 stream start (omega arith)

parsed_bounds_example :
    (length query.questions ≡ 1)
    × (length query.answers ≡ 0)
    × (length query.authority ≡ 0)
    × (length query.additional ≡ 0)
    × All ShortName query.questions
    × All ShortOwner query.answers
    × All ShortOwner query.authority
    × All ShortOwner query.additional
parsed_bounds_example = parsed_bounds datagram query parses
