-- ===== src/Redis/Tests.antt =====
-- Sessions with the Redis server.
use seclab_suite_protocol_si.Base.{
  All, List, Option, [], arith, false, inl, none, refl, some, true, ◌∷◌, ◌≡◌,
}
use seclab_suite_protocol_si.Base.Text.{Text, codes, is_whitespace, to_ascii_uppercase}
use seclab_suite_protocol_si.Report.{Peer}
use seclab_suite_protocol_si.Redis.{
  RedisSimulationContext, command, parse_redis_command, redis_array,
}
use seclab_suite_protocol_si.Redis.Handler.{handle_redis_connection}
use seclab_suite_protocol_si.Redis.RoundTrip.{parse_redis_command-redis_array}
use seclab_suite_protocol_si.Redis.RoundTrip.Body.{IsValue}
use seclab_suite_protocol_si.Redis.Secrecy.{handle_redis_connection-with_data, logs_in, with_data}

get_IsValue : IsValue (codes "get")
unfolding is_whitespace
get_IsValue = (
  (inl (omega arith), (inl (omega arith), (inl (omega arith), tt))),
  (refl, (refl, (refl, tt))),
  (codes "ge", b't', refl, refl),
)

key_IsValue : IsValue (codes "k")
unfolding is_whitespace
key_IsValue = ((inl (omega arith), tt), (refl, tt), ([], b'k', refl, refl))

parse_redis_command-redis_array_example :
    parse_redis_command (redis_array (codes "get" ∷ codes "k" ∷ []))
    ≡ command (record { name = to_ascii_uppercase (codes "get"); args = codes "k" ∷ [] })
parse_redis_command-redis_array_example =
    parse_redis_command-redis_array (codes "get") (codes "k" ∷ []) (get_IsValue, (key_IsValue, tt))
      (omega arith)

abbrev ctx : RedisSimulationContext
ctx = record {
  site = record { rule_id = codes "r"; node_id = codes "n"; port = 6379 };
  config = record {
    banner = none;
    require_auth = some true;
    password = some (codes "p");
    server_info = none;
    keys = none;
    command_responses = none;
  };
}

abbrev peer : Peer
peer = record { ip = codes "10.0.0.1"; port = 40000 }

abbrev secrets : Option (List (Text × Text))
secrets = some ((codes "k", codes "secret") ∷ [])

no_login :
    All
      (λ payload. logs_in ctx.config payload ≡ false)
      (codes "AUTH q\r\n" ∷ codes "GET k\r\n" ∷ [])
unfolding logs_in to_ascii_uppercase
no_login = (refl, (refl, tt))

handle_redis_connection-with_data_example :
    handle_redis_connection
      (with_data ctx secrets none)
      peer
      (codes "AUTH q\r\n" ∷ codes "GET k\r\n" ∷ [])
    ≡ handle_redis_connection
        (with_data ctx none secrets)
        peer
        (codes "AUTH q\r\n" ∷ codes "GET k\r\n" ∷ [])
handle_redis_connection-with_data_example =
    handle_redis_connection-with_data ctx refl secrets none none secrets peer
      (codes "AUTH q\r\n" ∷ codes "GET k\r\n" ∷ []) no_login
