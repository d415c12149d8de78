-- ===== src/Redis/Secrecy.antt =====
-- What a client that does not log in learns of the keys and of the server.
use seclab_suite_protocol_si.Base.{
  All, Bool, List, Option, [], ap, false, if-keeps, if◌then◌else◌, none, not, refl, some, true,
  ◌&&◌, ◌∙◌, ◌∷◌, ◌≡◌,
}
use seclab_suite_protocol_si.Base.Bits.{Bytes}
use seclab_suite_protocol_si.Base.Text.{Text, codes}
use seclab_suite_protocol_si.Report.{Peer}
use seclab_suite_protocol_si.Session.{Trace, then_trace}
use seclab_suite_protocol_si.Redis.{
  Parsed, RedisCommand, RedisSimulationContext, SimRedisConfig, capacity_overflow, command, invalid,
  parse_redis_command, redis_custom_response, redis_error,
}
use seclab_suite_protocol_si.Redis.Handler.{
  Answer, ChunkStep, RedisFailure, RedisVerb, after_answer, after_parse, answer_custom, answers,
  auth, auth_answer, chunk_step, goes_on, handle_redis_connection, is_free, is_password, panics,
  ping, redis_response_for_command, report_command, requires_auth, run_chunks, run_verb,
  then_chunks, verb_of,
}

-- The same server with other data.
abbrev pub with_data :
    RedisSimulationContext
    → Option (List (Text × Text))
    → Option (List (Text × Text))
    → RedisSimulationContext
with_data ctx stored server_info = record ctx {
  config = record ctx.config { keys = stored; server_info = server_info };
}

abbrev is_auth : RedisVerb → Bool
is_auth auth = true
is_auth _ = false

abbrev gives_password : SimRedisConfig → Parsed → Bool
gives_password config (command cmd) = is_auth (verb_of cmd.name) && is_password config cmd.args
gives_password config _ = false

-- Is the payload an AUTH with the password?
unfoldable pub logs_in : SimRedisConfig → Bytes → Bool
unfolding parse_redis_command verb_of is_password
logs_in config payload = gives_password config (parse_redis_command payload)

-- The step leaves the client outside.
abbrev StaysOut : ChunkStep → Type 0
StaysOut (goes_on authed events) = authed ≡ false
StaysOut panics = Unit

module _ (ctx : RedisSimulationContext) (required : requires_auth ctx.config ≡ true) where
  module _ (stored server_info stored' server_info' : Option (List (Text × Text))) where
    run_verb-with_data :
        (cmd : RedisCommand) (refusal : Answer) (verb : RedisVerb)
        → (if requires_auth ctx.config && (not false && not (is_free verb))
            then refusal
            else run_verb (with_data ctx stored server_info).config cmd false verb)
          ≡ (if requires_auth ctx.config && (not false && not (is_free verb))
              then refusal
              else run_verb (with_data ctx stored' server_info').config cmd false verb)
    unfolding run_verb auth_answer is_password
    run_verb-with_data cmd refusal ping = refl
    run_verb-with_data cmd refusal auth = refl
    run_verb-with_data cmd refusal verb = rw required refl

    after_parse-with_data :
        (peer : Peer) (payload : Bytes) (parsed : Parsed)
        → after_parse (with_data ctx stored server_info) peer false payload parsed
          ≡ after_parse (with_data ctx stored' server_info') peer false payload parsed
    unfolding redis_response_for_command redis_custom_response report_command
    after_parse-with_data peer payload invalid = refl
    after_parse-with_data peer payload capacity_overflow = refl
    after_parse-with_data peer payload (command cmd) =
        ap
          (λ (answer : Answer).
            after_answer ctx peer payload cmd
              (answer_custom (redis_custom_response ctx.config cmd) false answer))
          (run_verb-with_data cmd
            (answers (redis_error (codes "NOAUTH Authentication required.")) (codes "redis_command")
              false)
            (verb_of cmd.name))

    chunk_step-with_data :
        (peer : Peer) (payload : Bytes)
        → chunk_step (with_data ctx stored server_info) peer false payload
          ≡ chunk_step (with_data ctx stored' server_info') peer false payload
    unfolding chunk_step
    chunk_step-with_data peer payload =
        after_parse-with_data peer payload (parse_redis_command payload)

  run_verb_stays_out :
      (cmd : RedisCommand) (verb : RedisVerb)
      → (is_auth verb && is_password ctx.config cmd.args) ≡ false
      → (run_verb ctx.config cmd false verb).authed ≡ false
  unfolding run_verb auth_answer
  run_verb_stays_out cmd auth other = rw (required, other) refl
  run_verb_stays_out cmd verb other = refl

  answer_custom_stays_out :
      (o : Option (Bytes × Text)) (answer : Answer)
      → answer.authed ≡ false
      → (answer_custom o false answer).authed ≡ false
  answer_custom_stays_out none answer h = h
  answer_custom_stays_out (some custom) answer h = refl

  after_parse-StaysOut :
      (peer : Peer) (payload : Bytes) (parsed : Parsed)
      → gives_password ctx.config parsed ≡ false
      → StaysOut (after_parse ctx peer false payload parsed)
  unfolding redis_response_for_command
  after_parse-StaysOut peer payload invalid other = refl
  after_parse-StaysOut peer payload capacity_overflow other = tt
  after_parse-StaysOut peer payload (command cmd) other =
      answer_custom_stays_out (redis_custom_response ctx.config cmd) _ (
        if-keeps (λ (a : Answer). a.authed ≡ false)
          (requires_auth ctx.config && (not false && not (is_free (verb_of cmd.name)))) _ _
          (λ refused. refl) (λ free. run_verb_stays_out cmd (verb_of cmd.name) other))

  chunk_step-StaysOut :
      (peer : Peer) (payload : Bytes)
      → logs_in ctx.config payload ≡ false
      → StaysOut (chunk_step ctx peer false payload)
  unfolding chunk_step logs_in
  chunk_step-StaysOut peer payload other =
      after_parse-StaysOut peer payload (parse_redis_command payload) other

then_chunks-StaysOut :
    (step : ChunkStep) (k l : Bool → Trace RedisFailure)
    → StaysOut step
    → k false ≡ l false
    → then_chunks step k ≡ then_chunks step l
then_chunks-StaysOut (goes_on true events) k l h same = cc
then_chunks-StaysOut (goes_on false events) k l h same = ap (then_trace events) same
then_chunks-StaysOut panics k l h same = refl

module _ (ctx : RedisSimulationContext) (required : requires_auth ctx.config ≡ true) where
  module _ (stored server_info stored' server_info' : Option (List (Text × Text)))
      (peer : Peer) where
    run_chunks-with_data :
        (chunks : List Bytes)
        → All (λ payload. logs_in ctx.config payload ≡ false) chunks
        → run_chunks (with_data ctx stored server_info) peer false chunks
          ≡ run_chunks (with_data ctx stored' server_info') peer false chunks
    unfolding run_chunks logs_in
    run_chunks-with_data [] h = refl
    run_chunks-with_data ([] ∷ chunks) h = refl
    run_chunks-with_data ((b ∷ payload) ∷ chunks) (other, others) =
        ap
          (λ (s : ChunkStep).
            then_chunks s
              (λ after. run_chunks (with_data ctx stored server_info) peer after chunks))
          (chunk_step-with_data ctx required stored server_info stored' server_info' peer
            (b ∷ payload))
        ∙ then_chunks-StaysOut
            (chunk_step (with_data ctx stored' server_info') peer false (b ∷ payload)) _ _
            (chunk_step-StaysOut (with_data ctx stored' server_info') required peer (b ∷ payload)
              other)
            (run_chunks-with_data chunks others)

    -- Where a login is required, a client that sends no AUTH with the password sees and leaves the same whatever
    -- the keys, their values and the information on the server are: the bytes it is sent, the reports and
    -- the way in which its connection ends.
    pub handle_redis_connection-with_data :
        (chunks : List Bytes)
        → All (λ payload. logs_in ctx.config payload ≡ false) chunks
        → handle_redis_connection (with_data ctx stored server_info) peer chunks
          ≡ handle_redis_connection (with_data ctx stored' server_info') peer chunks
    unfolding handle_redis_connection
    handle_redis_connection-with_data chunks h = rw (required, run_chunks-with_data chunks h) refl
