-- ===== src/Tests/Server.antt =====
-- The theorems on crates/dnser-server at concrete inputs.
use dnser.Base.{
  ℕ, ◌+◌, ◌-◌, ◌%◌, ◌^◌, ◌≤◌, ◌<◌, ◌≡◌, ◌⊎◌, refl, List, [], ◌∷◌, ◌++◌, length, none, some, Result,
  ok, err, min,
}
use dnser.Base.Bytes.{Bytes}
use dnser.Cache
use dnser.Proto.Codes
use dnser.Proto.Message
use dnser.Proto.Message.{Message, to_bytes}
use dnser.Proto.Question.{Question}
use dnser.Proto.Record.{edns_opt}
use dnser.Server.Handler.{
  process_query, query_udp_limit, add_edns_opt, without_opt, build_truncated,
}
use dnser.Server.Replies.{add_edns_opt_lem}
use dnser.Server.Worker.{handle_query, handle_query-fits}
use dnser.Tests.Cache.{constant_hash, in_order, shouting, empty_cache}

-- An upstream that does not answer.
abbrev pub silent : Message → Result ℕ Message
silent query = err 1

abbrev query : Message
query = record Message.default {
  header = record {
    id = 9;
    flags = 0x0100;
    qd_count = 1;
    an_count = 0;
    ns_count = 0;
    ar_count = 0;
  };
  questions = shouting ∷ [];
}

abbrev query_with_opt : Message
query_with_opt = record query { additional = edns_opt 1280 ∷ edns_opt 512 ∷ [] }

add_edns_opt_lem_example :
    (Message.opt (add_edns_opt query_with_opt) ≡ some (edns_opt 4096))
    × (without_opt (add_edns_opt query_with_opt).additional ≡ without_opt query_with_opt.additional)
    × (length (add_edns_opt query_with_opt).additional
        ≡ length (without_opt query_with_opt.additional) + 1)
    × ((add_edns_opt query_with_opt).header.ar_count
        ≡ length (add_edns_opt query_with_opt).additional % 2 ^ 16)
    × ((add_edns_opt query_with_opt).header.id ≡ query_with_opt.header.id)
    × ((add_edns_opt query_with_opt).header.flags ≡ query_with_opt.header.flags)
    × ((add_edns_opt query_with_opt).header.qd_count ≡ query_with_opt.header.qd_count)
    × ((add_edns_opt query_with_opt).header.an_count ≡ query_with_opt.header.an_count)
    × ((add_edns_opt query_with_opt).header.ns_count ≡ query_with_opt.header.ns_count)
    × ((add_edns_opt query_with_opt).questions ≡ query_with_opt.questions)
    × ((add_edns_opt query_with_opt).answers ≡ query_with_opt.answers)
    × ((add_edns_opt query_with_opt).authority ≡ query_with_opt.authority)
add_edns_opt_lem_example = add_edns_opt_lem query_with_opt

-- A query for "a".
abbrev pub datagram : Bytes
datagram = 0 ∷ 7 ∷ 1 ∷ 0 ∷ 0 ∷ 1 ∷ 0 ∷ 0 ∷ 0 ∷ 0 ∷ 0 ∷ 0 ∷ 1 ∷ b'a' ∷ 0 ∷ 0 ∷ 1 ∷ 0 ∷ 1 ∷ []

-- SERVFAIL with the question.
abbrev pub sent : Bytes
sent = 0 ∷ 7 ∷ 0x81 ∷ 2 ∷ 0 ∷ 1 ∷ 0 ∷ 0 ∷ 0 ∷ 0 ∷ 0 ∷ 0 ∷ 1 ∷ b'a' ∷ 0 ∷ 0 ∷ 1 ∷ 0 ∷ 1 ∷ []

sends_servfail : (handle_query in_order constant_hash silent 0 1 datagram empty_cache).0 ≡ ok sent
unfolding handle_query process_query dnser.Server.Handler.answer dnser.Server.Handler.look_up
    dnser.Server.Handler.ask_upstream dnser.Server.Handler.build_servfail
    dnser.Server.Worker.reply_bytes query_udp_limit Message.opt Message.build_writer Message.parse
    Message.parse_body Message.parse_section Message.write_section to_bytes dnser.Proto.Header.parse
    dnser.Proto.Header.reply_to dnser.Proto.Header.write dnser.Proto.Reader.read_u16
    dnser.Base.Bytes.slice dnser.Proto.Reader.new dnser.Proto.Question.parse
    dnser.Proto.Question.write dnser.Proto.Reader.read_name dnser.Proto.Reader.name_loop
    dnser.Proto.Reader.name_round dnser.Proto.Reader.start_state dnser.Proto.Utf8.from_utf8
    Codes.record_type_try_from Codes.record_type_code Codes.is_known dnser.Proto.Writer.new
    dnser.Proto.Writer.write_name dnser.Cache.get dnser.Cache.find_lookup Cache.new
    Cache.shard_index
sends_servfail = refl
