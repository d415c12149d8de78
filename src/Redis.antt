-- ===== src/Redis.antt =====
-- The Redis simulation, simulation/redis.rs lines 11 to 222: the parser of commands and the responses.
pub mod Handler
pub mod RoundTrip
pub mod Secrecy
mod Tests
use seclab_suite_protocol_si.Base.{
  Bool, List, Option, [], all, if◌then◌else◌, is_empty, length, ltb, map, none, some, suc,
  unwrap_or, zero, ℕ, ◌&&◌, ◌*◌, ◌++◌, ◌^◌, ◌∷◌,
}
use seclab_suite_protocol_si.Base.Bits.{Bytes}
use seclab_suite_protocol_si.Base.Text.{
  Text, codes, contains, eq_ignore_ascii_case, is_line_end, join, parse_unsigned, split_whitespace,
  starts_with, strip_prefix, to_ascii_lowercase, to_ascii_uppercase, to_decimal, trim_end,
  trim_matches,
}
use seclab_suite_protocol_si.Base.Text.Utf8.{from_utf8, utf8}
use seclab_suite_protocol_si.Base.Text.Lines.{lines}
use seclab_suite_protocol_si.Report.{Site}

pub record RedisCommandResponse : Type 0 where
  pub command : Text
  pub args_contains : Option (List Text)
  pub response : Text
  pub event_type : Option Text

-- A map is the list of its entries in the order of their keys.
pub record SimRedisConfig : Type 0 where
  pub banner : Option Text
  pub require_auth : Option Bool
  pub password : Option Text
  pub server_info : Option (List (Text × Text))
  pub keys : Option (List (Text × Text))
  pub command_responses : Option (List RedisCommandResponse)

pub record RedisSimulationContext : Type 0 where
  pub site : Site
  pub config : SimRedisConfig

pub record RedisCommand : Type 0 where
  pub name : Text
  pub args : List Text

-- What the parser comes to. `Vec::with_capacity` panics where the strings would take more than `isize::MAX` bytes.
pub data Parsed : Type 0 where
  command : RedisCommand → Parsed
  invalid : Parsed
  capacity_overflow : Parsed

-- The name and the arguments among the words or the values, if there is a first.
abbrev pub named : List Text → Parsed
named [] = invalid
named (name ∷ args) = command (record { name = to_ascii_uppercase name; args = args })

abbrev pub named_if_some : Option (List Text) → Parsed
named_if_some none = invalid
named_if_some (some values) = named values

abbrev pub onto_values : Text → Option (List Text) → Option (List Text)
onto_values value none = none
onto_values value (some values) = some (value ∷ values)

-- The `for` loop: the values that it pushes, if no line of a value is missing.
unfoldable pub values_loop : ℕ → List Text → Option (List Text)
unfolding starts_with
values_loop zero lines = some []
values_loop (suc n) [] = none
values_loop (suc n) (bulk_header ∷ []) = none
values_loop (suc n) (bulk_header ∷ value ∷ lines) =
    let rest = values_loop n lines in
    if starts_with bulk_header (codes "$") then onto_values value rest else none

-- A `String` is of 24 bytes.
abbrev pub fits : ℕ → Bool
fits array_len = ltb (24 * array_len) (2 ^ 63)

unfoldable pub values_of : Option ℕ → List Text → Parsed
unfolding values_loop
values_of none lines = invalid
values_of (some array_len) lines =
    if fits array_len then named_if_some (values_loop array_len lines) else capacity_overflow

abbrev pub array_length : Option Text → Option ℕ
array_length none = none
array_length (some digits) = parse_unsigned (2 ^ 64) digits

unfoldable pub parse_array : List Text → Parsed
unfolding values_of strip_prefix parse_unsigned
parse_array [] = invalid
parse_array (first ∷ lines) = values_of (array_length (strip_prefix first (codes "*"))) lines

abbrev pub parse_text : Text → Parsed
parse_text text =
    if is_empty text
    then invalid
    else if starts_with text (codes "*")
    then parse_array (map trim_end (lines text))
    else named (split_whitespace text)

abbrev pub parse_decoded : Option Text → Parsed
parse_decoded none = invalid
parse_decoded (some text) = parse_text (trim_matches is_line_end text)

unfoldable pub parse_redis_command : Bytes → Parsed
unfolding from_utf8 trim_matches parse_array split_whitespace starts_with lines trim_end
parse_redis_command input = parse_decoded (from_utf8 input)

unfoldable pub redis_simple : Text → Bytes
unfolding utf8
redis_simple value = utf8 (b'+' ∷ (value ++ codes "\r\n"))

unfoldable pub redis_error : Text → Bytes
unfolding utf8
redis_error value = utf8 (b'-' ∷ (value ++ codes "\r\n"))

-- The text of `redis_bulk`, and its bytes.
unfoldable pub bulk_text : Text → Text
unfolding utf8 to_decimal
bulk_text value =
    b'$' ∷ (to_decimal (length (utf8 value)) ++ (codes "\r\n" ++ (value ++ codes "\r\n")))

unfoldable pub redis_bulk : Text → Bytes
unfolding bulk_text
redis_bulk value = utf8 (bulk_text value)

abbrev pub redis_nil : Bytes
redis_nil = codes "$-1\r\n"

abbrev pub bulks : List Text → Bytes
bulks [] = []
bulks (value ∷ values) = redis_bulk value ++ bulks values

unfoldable pub redis_array : List Text → Bytes
unfolding redis_bulk to_decimal
redis_array values = utf8 (b'*' ∷ (to_decimal (length values) ++ codes "\r\n")) ++ bulks values

abbrev info_lines : List Text
info_lines =
    codes "# Server"
    ∷ codes "redis_version:6.2.14"
    ∷ codes "redis_git_sha1:00000000"
    ∷ codes "redis_mode:standalone"
    ∷ codes "os:Linux x86_64"
    ∷ codes "tcp_port:6379"
    ∷ codes "# Clients"
    ∷ codes "connected_clients:1"
    ∷ codes "# Memory"
    ∷ codes "used_memory_human:12.34M"
    ∷ []

unfoldable pub redis_info_payload : SimRedisConfig → Text
unfolding join
redis_info_payload config =
    join (codes "\r\n")
      (info_lines ++ map (λ entry. entry.0 ++ (b':' ∷ entry.1)) (unwrap_or config.server_info []))

abbrev pub contains_all : Text → List Text → Bool
contains_all command_text needles =
    all (λ needle. contains command_text (to_ascii_lowercase needle)) needles

-- The loop over the responses.
abbrev pub first_response : RedisCommand → Text → List RedisCommandResponse → Option (Bytes × Text)
first_response cmd command_text [] = none
first_response cmd command_text (response ∷ responses) =
    let rest = first_response cmd command_text responses in
    if eq_ignore_ascii_case response.command cmd.name
      && contains_all command_text (unwrap_or response.args_contains [])
    then some (redis_bulk response.response, unwrap_or response.event_type (codes "redis_command"))
    else rest

unfoldable pub redis_custom_response : SimRedisConfig → RedisCommand → Option (Bytes × Text)
unfolding join to_ascii_lowercase contains eq_ignore_ascii_case redis_bulk
redis_custom_response config cmd =
    first_response cmd (to_ascii_lowercase (join (codes " ") (cmd.name ∷ cmd.args)))
      (unwrap_or config.command_responses [])
