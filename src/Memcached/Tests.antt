-- ===== src/Memcached/Tests.antt =====
-- A command that comes in two reads.
use seclab_suite_protocol_si.Base.{List, [], arith, none, refl, ◌∷◌, ◌≡◌}
use seclab_suite_protocol_si.Base.Bits.{Bytes}
use seclab_suite_protocol_si.Base.Text.{codes}
use seclab_suite_protocol_si.Report.{Peer}
use seclab_suite_protocol_si.Session.{finished}
use seclab_suite_protocol_si.Memcached.{MemcachedContext, handle_memcached}
use seclab_suite_protocol_si.Memcached.Stream.{answer_lines, complete, events_of}
use seclab_suite_protocol_si.Memcached.Chunks.{concat, handle_memcached-complete}

abbrev ctx : MemcachedContext
ctx = record {
  site = record { rule_id = codes "r"; node_id = codes "n"; port = 11211 };
  config = record { server_version = none; stats = none };
}

abbrev peer : Peer
peer = record { ip = codes "10.0.0.1"; port = 40000 }

abbrev chunks : List Bytes
chunks = codes "ver" ∷ codes "sion\r\n\r\nstats" ∷ []

handle_memcached-complete_example :
    handle_memcached ctx peer chunks
    ≡ finished (events_of (answer_lines ctx peer 0 (complete (concat chunks)).0))
handle_memcached-complete_example =
    handle_memcached-complete ctx peer chunks (refl, (refl, tt)) (omega arith)
