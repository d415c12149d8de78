-- ===== src/Redis/Handler.antt =====
-- The responses and the handler of a connection, simulation/redis.rs lines 144 to 291. A connection is the
-- list of what its reads return.
use seclab_suite_protocol_si.Base.{
  Bool, List, Option, [], false, if◌then◌else◌, is_empty, map, none, not, some, take, true,
  unwrap_or, ◌&&◌, ◌++◌, ◌∷◌,
}
use seclab_suite_protocol_si.Base.Bits.{Bytes}
use seclab_suite_protocol_si.Base.Text.{Text, codes, is_one_of, join, text_eq}
use seclab_suite_protocol_si.Report.{Peer, draft, encode_hex}
use seclab_suite_protocol_si.Session.{Event, Trace, failed, finished, reported, sent, then_trace}
use seclab_suite_protocol_si.Redis.{
  Parsed, RedisCommand, RedisSimulationContext, SimRedisConfig, capacity_overflow, command, invalid,
  parse_redis_command, redis_array, redis_bulk, redis_custom_response, redis_error,
  redis_info_payload, redis_nil, redis_simple,
}

-- The arms of `match command.name.as_str()`.
pub data RedisVerb : Type 0 where
  ping auth info config_verb keys get set_verb disabled unknown : RedisVerb

unfoldable pub verb_of : Text → RedisVerb
unfolding text_eq
verb_of name =
    if text_eq name (codes "PING")
    then ping
    else if text_eq name (codes "AUTH")
    then auth
    else if text_eq name (codes "INFO")
    then info
    else if text_eq name (codes "CONFIG")
    then config_verb
    else if text_eq name (codes "KEYS")
    then keys
    else if text_eq name (codes "GET")
    then get
    else if text_eq name (codes "SET")
    then set_verb
    else if is_one_of name (
        codes "FLUSHALL"
        ∷ codes "FLUSHDB"
        ∷ codes "SLAVEOF"
        ∷ codes "REPLICAOF"
        ∷ codes "MODULE"
        ∷ codes "EVAL"
        ∷ [])
    then disabled
    else unknown

-- The response, the type of the event, and the flag of the session behind it.
pub record Answer : Type 0 where
  pub response : Bytes
  pub event_type : Text
  pub authed : Bool

abbrev pub answers : Bytes → Text → Bool → Answer
answers response event_type authed = record {
  response = response;
  event_type = event_type;
  authed = authed;
}

abbrev pub requires_auth : SimRedisConfig → Bool
requires_auth config = unwrap_or config.require_auth false

abbrev pub or_last : Text → List Text → Text
or_last last [] = last
or_last last (arg ∷ args) = or_last arg args

unfoldable pub is_password : SimRedisConfig → List Text → Bool
unfolding text_eq
is_password config args = text_eq (or_last [] args) (unwrap_or config.password (codes "redis"))

abbrev pub ping_response : List Text → Bytes
ping_response [] = redis_simple (codes "PONG")
ping_response (arg ∷ args) = redis_bulk arg

unfoldable pub auth_answer : SimRedisConfig → List Text → Bool → Answer
unfolding is_password redis_simple redis_error
auth_answer config args authed =
    if not (requires_auth config)
    then answers (redis_simple (codes "OK")) (codes "redis_command") true
    else if is_password config args
    then answers (redis_simple (codes "OK")) (codes "redis_command") true
    else answers (redis_error (codes "ERR invalid password")) (codes "exploit_attempt") authed

abbrev pub lookup : List (Text × Text) → Text → Option Text
lookup [] key = none
lookup ((name, value) ∷ entries) key =
    let rest = lookup entries key in if text_eq name key then some value else rest

abbrev pub bulk_or_nil : Option Text → Bytes
bulk_or_nil none = redis_nil
bulk_or_nil (some value) = redis_bulk value

abbrev pub get_response : SimRedisConfig → List Text → Bytes
get_response config [] = redis_nil
get_response config (key ∷ args) = bulk_or_nil (lookup (unwrap_or config.keys []) key)

-- The `match`.
unfoldable pub run_verb : SimRedisConfig → RedisCommand → Bool → RedisVerb → Answer
unfolding auth_answer redis_array redis_bulk redis_simple redis_error redis_info_payload
run_verb config cmd authed ping = answers (ping_response cmd.args) (codes "redis_command") authed
run_verb config cmd authed auth = auth_answer config cmd.args authed
run_verb config cmd authed info =
    answers (redis_bulk (redis_info_payload config)) (codes "redis_command") authed
run_verb config cmd authed config_verb =
    answers (redis_error (codes "ERR unknown command 'CONFIG', with args beginning with:"))
      (codes "exploit_attempt") authed
run_verb config cmd authed keys =
    answers (redis_array (map (λ entry. entry.0) (unwrap_or config.keys [])))
      (codes "exploit_attempt") authed
run_verb config cmd authed get =
    answers (get_response config cmd.args) (codes "redis_command") authed
run_verb config cmd authed set_verb =
    answers (redis_simple (codes "OK")) (codes "redis_command") authed
run_verb config cmd authed disabled =
    answers (redis_error (codes "ERR command is disabled in this simulation"))
      (codes "exploit_attempt") authed
run_verb config cmd authed unknown =
    answers (redis_error (codes "ERR unknown command '" ++ (cmd.name ++ codes "'")))
      (codes "redis_command") authed

abbrev pub is_free : RedisVerb → Bool
is_free ping = true
is_free auth = true
is_free _ = false

abbrev pub answer_custom : Option (Bytes × Text) → Bool → Answer → Answer
answer_custom none authed otherwise = otherwise
answer_custom (some (response, event_type)) authed otherwise = answers response event_type authed

unfoldable pub redis_response_for_command : SimRedisConfig → RedisCommand → Bool → Answer
unfolding run_verb verb_of redis_custom_response redis_error
redis_response_for_command config cmd authed =
    answer_custom (redis_custom_response config cmd) authed (
      if requires_auth config && (not authed && not (is_free (verb_of cmd.name)))
      then answers (redis_error (codes "NOAUTH Authentication required.")) (codes "redis_command")
          authed
      else run_verb config cmd authed (verb_of cmd.name))

abbrev summary_of : RedisCommand → Text
summary_of cmd =
    if is_empty cmd.args
    then codes "Redis command: " ++ cmd.name
    else codes "Redis command: " ++ (cmd.name ++ (b' ' ∷ join (codes " ") cmd.args))

-- The report of a command.
unfoldable pub report_command : RedisSimulationContext → Peer → Bytes → RedisCommand → Text → Event
unfolding join encode_hex
report_command ctx peer payload cmd event_type =
    reported
      (draft ctx.site peer event_type (summary_of cmd) (some (encode_hex (take 512 payload))))

-- The one way in which a connection ends that is not the end of its stream.
pub data RedisFailure : Type 0 where
  panicked : RedisFailure

-- What a payload leads to: the events and the flag behind it, or a panic.
pub data ChunkStep : Type 0 where
  goes_on : Bool → List Event → ChunkStep
  panics : ChunkStep

abbrev pub after_answer : RedisSimulationContext → Peer → Bytes → RedisCommand → Answer → ChunkStep
after_answer ctx peer payload cmd answer =
    goes_on answer.authed
      (report_command ctx peer payload cmd answer.event_type ∷ sent answer.response ∷ [])

abbrev pub after_parse : RedisSimulationContext → Peer → Bool → Bytes → Parsed → ChunkStep
after_parse ctx peer authed payload invalid =
    goes_on authed (sent (redis_error (codes "ERR Protocol error: invalid request")) ∷ [])
after_parse ctx peer authed payload capacity_overflow = panics
after_parse ctx peer authed payload (command cmd) =
    after_answer ctx peer payload cmd (redis_response_for_command ctx.config cmd authed)

unfoldable pub chunk_step : RedisSimulationContext → Peer → Bool → Bytes → ChunkStep
unfolding parse_redis_command redis_response_for_command report_command redis_error
chunk_step ctx peer authed payload =
    after_parse ctx peer authed payload (parse_redis_command payload)

abbrev pub then_chunks : ChunkStep → (Bool → Trace RedisFailure) → Trace RedisFailure
then_chunks (goes_on authed events) k = then_trace events (k authed)
then_chunks panics k = failed [] panicked

-- The loop: it ends at an empty read.
unfoldable pub run_chunks : RedisSimulationContext → Peer → Bool → List Bytes → Trace RedisFailure
unfolding chunk_step
run_chunks ctx peer authed [] = finished []
run_chunks ctx peer authed ([] ∷ chunks) = finished []
run_chunks ctx peer authed ((b ∷ payload) ∷ chunks) =
    then_chunks (chunk_step ctx peer authed (b ∷ payload))
      (λ after. run_chunks ctx peer after chunks)

abbrev banner_events : Option Text → List Event
banner_events none = []
banner_events (some banner) = sent (redis_simple banner) ∷ []

unfoldable pub handle_redis_connection :
    RedisSimulationContext → Peer → List Bytes → Trace RedisFailure
unfolding run_chunks redis_simple
handle_redis_connection ctx peer chunks =
    then_trace
      (banner_events ctx.config.banner
        ++ (reported
              (draft ctx.site peer (codes "connection") (codes "Redis client connected") none)
            ∷ []))
      (run_chunks ctx peer (not (requires_auth ctx.config)) chunks)
