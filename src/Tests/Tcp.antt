-- ===== src/Tests/Tcp.antt =====
-- The theorems on a connection of crates/dnser-server at concrete inputs.
use dnser.Base.{ℕ, ◌+◌, ◌≡◌, ◌≢◌, refl, some, none, List, [], ◌∷◌, ◌++◌, arith, ok, stuck}
use dnser.Base.Bytes.{Bytes}
use dnser.Cache
use dnser.Cache.{Cache, evict_expired}
use dnser.Net.{read_framed}
use dnser.Proto.Codes
use dnser.Proto.Message
use dnser.Proto.Message.{Message}
use dnser.Server.Tcp.{Conn, handle_conn}
use dnser.Server.Tcp.Pipeline.{
  stream_of, parse_all, send_all, serve_all, handle_conn-ne-stuck, handle_conn_pipelined,
}
use dnser.Tests.Cache.{constant_hash, in_order, empty_cache}
use dnser.Tests.Server.{silent, datagram, sent}

abbrev pub clock : ℕ → ℕ × ℕ
clock round = (round, round + 1)

-- Between two queries the reaper runs.
abbrev pub after_reaping : ℕ → Cache → Cache
after_reaping round = evict_expired round

abbrev pub in_frame : Bytes → Bytes
in_frame body = 0 ∷ 19 ∷ body

-- Two queries at once, and the first byte of a third.
abbrev pub stream : Bytes
stream = in_frame datagram ++ in_frame datagram

abbrev pub query : Message
query = record Message.default {
  header = record {
    id = 7;
    flags = 0x0100;
    qd_count = 1;
    an_count = 0;
    ns_count = 0;
    ar_count = 0;
  };
  questions = record { name = b'a' ∷ []; qtype = Codes.a; qclass = record { code = 1 } } ∷ [];
}

sends_both : stream_of (datagram ∷ datagram ∷ []) ≡ some stream
unfolding stream_of dnser.Net.write_framed
sends_both = refl

pub parses : Message.parse datagram ≡ ok query
unfolding Message.parse Message.parse_body Message.parse_section dnser.Proto.Header.parse
    dnser.Proto.Reader.read_u16 dnser.Base.Bytes.slice dnser.Proto.Reader.new
    dnser.Proto.Question.parse dnser.Proto.Reader.read_name dnser.Proto.Reader.name_loop
    dnser.Proto.Reader.name_round dnser.Proto.Reader.start_state dnser.Proto.Utf8.from_utf8
    Codes.record_type_try_from Codes.record_type_code Codes.is_known
parses = refl

parses_both : parse_all (datagram ∷ datagram ∷ []) ≡ ok (query ∷ query ∷ [])
unfolding parse_all
parses_both = ground (arith, parses)

answers_both :
    send_all
      (serve_all in_order constant_hash
        (λ n. silent)
        after_reaping
        clock
        0
        (query ∷ query ∷ [])
        empty_cache).0
    ≡ ok (in_frame sent ++ in_frame sent)
unfolding send_all serve_all dnser.Server.Tcp.frame_of dnser.Net.write_framed
    dnser.Server.Handler.process_query dnser.Server.Handler.answer dnser.Server.Handler.look_up
    dnser.Server.Handler.ask_upstream dnser.Server.Handler.build_servfail Message.opt
    Message.build_writer Message.write_section Message.to_bytes dnser.Proto.Header.reply_to
    dnser.Proto.Header.write dnser.Proto.Question.write Codes.record_type_code
    dnser.Proto.Writer.new dnser.Proto.Writer.write_name dnser.Cache.get dnser.Cache.find_lookup
    Cache.new Cache.shard_index evict_expired Cache.evict_shards Cache.retain
answers_both = refl

cut_short : read_framed (0 ∷ []) ≡ none
unfolding read_framed dnser.Net.read_exact
cut_short = refl

handle_conn_pipelined_example :
    handle_conn in_order constant_hash
      (λ n. silent)
      after_reaping
      clock
      60
      0
      (stream ++ 0 ∷ [])
      empty_cache
    ≡ (record {
      written = in_frame sent ++ in_frame sent;
      outcome = ok tt;
      cache =
          (serve_all in_order constant_hash
            (λ n. silent)
            after_reaping
            clock
            0
            (query ∷ query ∷ [])
            empty_cache).1;
    })
handle_conn_pipelined_example =
    handle_conn_pipelined in_order constant_hash (λ n. silent) after_reaping clock 60 0
      (datagram ∷ datagram ∷ []) stream (0 ∷ []) (in_frame sent ++ in_frame sent)
      (query ∷ query ∷ []) empty_cache sends_both parses_both answers_both cut_short (omega arith)

handle_conn-ne-stuck_example :
    (handle_conn in_order constant_hash
      (λ n. silent)
      after_reaping
      clock
      60
      0
      stream
      empty_cache).outcome
    ≢ stuck
handle_conn-ne-stuck_example =
    handle_conn-ne-stuck in_order constant_hash (λ n. silent) after_reaping clock 60 0 stream
      empty_cache (omega arith)
