-- ===== src/Memcached.antt =====
-- The Memcached simulation, simulation/memcached.rs lines 9 to 99. A connection is the list of what its
-- reads return.
pub mod Stream
pub mod Chunks
mod Tests
use seclab_suite_protocol_si.Base.{
  Bool, List, Option, [], any, false, if◌then◌else◌, is_empty, leb, length, ltb, none, not, some,
  suc, true, unwrap_or, zero, ℕ, ◌&&◌, ◌++◌, ◌+◌, ◌==◌, ◌∷◌,
}
use seclab_suite_protocol_si.Base.Bits.{Bytes}
use seclab_suite_protocol_si.Base.Text.{
  Text, codes, is_whitespace, split_whitespace, text_eq, to_ascii_lowercase, trim,
}
use seclab_suite_protocol_si.Base.Text.Utf8.{from_utf8_lossy, utf8}
use seclab_suite_protocol_si.Report.{Peer, Site, draft}
use seclab_suite_protocol_si.Session.{Event, Trace, failed, finished, reported, sent, then_trace}

abbrev pub max_request_size : ℕ
max_request_size = 4096

abbrev pub max_commands : ℕ
max_commands = 32

-- A map is the list of its entries in the order of their keys.
pub record SimMemcachedConfig : Type 0 where
  pub server_version : Option Text
  pub stats : Option (List (Text × Text))

pub record MemcachedContext : Type 0 where
  pub site : Site
  pub config : SimMemcachedConfig

abbrev version_of : SimMemcachedConfig → Text
version_of config = unwrap_or config.server_version (codes "1.6.24")

-- The loop over the configured values.
abbrev stat_lines : List (Text × Text) → Text
stat_lines [] = []
stat_lines ((key, value) ∷ stats) =
    let rest = stat_lines stats in
    if not (is_empty (trim key)) && not (any is_whitespace key)
    then codes "STAT " ++ (key ++ (b' ' ∷ (value ++ (codes "\r\n" ++ rest))))
    else rest

unfoldable pub stats_response : SimMemcachedConfig → Bool → Text
unfolding trim is_whitespace
stats_response config true =
    codes "STAT maxbytes 67108864\r\nSTAT maxconns 1024\r\nSTAT tcpport 11211\r\nEND\r\n"
stats_response config false =
    codes "STAT pid 1\r\nSTAT uptime 3600\r\nSTAT time 1700000000\r\nSTAT version "
    ++ (version_of config
        ++ (codes
              "\r\nSTAT pointer_size 64\r\nSTAT curr_connections 1\r\nSTAT total_connections 1\r\nSTAT maxconns 1024\r\n"
            ++ (stat_lines (unwrap_or config.stats []) ++ codes "END\r\n")))

unfoldable pub response_for : Text → SimMemcachedConfig → Text
unfolding stats_response trim to_ascii_lowercase text_eq
response_for command config =
    let normalized = to_ascii_lowercase (trim command) in
    if text_eq normalized (codes "version")
    then codes "VERSION " ++ (version_of config ++ codes "\r\n")
    else if text_eq normalized (codes "stats")
    then stats_response config false
    else if text_eq normalized (codes "stats settings")
    then stats_response config true
    else codes "ERROR\r\n"

abbrev pub first_or : Text → List Text → Text
first_or other [] = other
first_or other (word ∷ words) = word

-- The events of a command.
unfoldable pub command_events : MemcachedContext → Peer → Text → List Event
unfolding response_for split_whitespace utf8
command_events ctx peer command =
    sent (utf8 (response_for command ctx.config))
    ∷ reported (
        draft ctx.site peer (codes "memcached_command")
          (codes "Memcached probe command: "
            ++ first_or (codes "unknown") (split_whitespace command))
          none)
    ∷ []

-- `pending.drain(..=line_end)`: the first line with its line feed and what is left, if there is one.
abbrev pub onto_line : ℕ → Option (Bytes × Bytes) → Option (Bytes × Bytes)
onto_line b none = none
onto_line b (some (line, pending)) = some (b ∷ line, pending)

abbrev pub drain_line : Bytes → Option (Bytes × Bytes)
drain_line [] = none
drain_line (b ∷ pending) =
    let rest = drain_line pending in if b == b'\n' then some (b ∷ [], pending) else onto_line b rest

pub data MemcachedError : Type 0 where
  too_large out_of_fuel : MemcachedError

-- What the lines of the pending bytes lead to: the rest of the bytes with the count of the commands, the end of
-- the handler, or no fuel.
pub data Drained : Type 0 where
  waits : List Event → Bytes → ℕ → Drained
  returns : List Event → Drained
  stuck : Drained

abbrev pub then_drained : List Event → Drained → Drained
then_drained events (waits more pending commands) = waits (events ++ more) pending commands
then_drained events (returns more) = returns (events ++ more)
then_drained events stuck = stuck

-- The inner loop: each turn takes a byte at least.
unfoldable pub drain_loop : MemcachedContext → Peer → ℕ → Bytes → ℕ → Drained
unfolding command_events from_utf8_lossy trim
drain_loop ctx peer zero pending commands = stuck
drain_loop ctx peer (suc fuel) pending commands = elim (drain_line pending) [
  | none ↦ waits [] pending commands
  | some (line, rest) ↦
      let command = from_utf8_lossy line in
      let count = if is_empty (trim command) then commands else commands + 1 in
      let more = drain_loop ctx peer fuel rest count in
      if is_empty (trim command)
      then more
      else if leb max_commands count
      then returns (command_events ctx peer command)
      else then_drained (command_events ctx peer command) more
]

abbrev pub after_drained : Drained → (Bytes → ℕ → Trace MemcachedError) → Trace MemcachedError
after_drained (waits events pending commands) k = then_trace events (k pending commands)
after_drained (returns events) k = finished events
after_drained stuck k = failed [] out_of_fuel

-- The outer loop: it ends at an empty read.
unfoldable pub read_loop : MemcachedContext → Peer → Bytes → ℕ → List Bytes → Trace MemcachedError
unfolding drain_loop
read_loop ctx peer pending commands [] = finished []
read_loop ctx peer pending commands ([] ∷ chunks) = finished []
read_loop ctx peer pending commands ((b ∷ chunk) ∷ chunks) =
    let bytes = pending ++ (b ∷ chunk) in
    if ltb max_request_size (length bytes)
    then failed [] too_large
    else after_drained (drain_loop ctx peer (suc (length bytes)) bytes commands)
        (λ left count. read_loop ctx peer left count chunks)

unfoldable pub handle_memcached : MemcachedContext → Peer → List Bytes → Trace MemcachedError
unfolding read_loop
handle_memcached ctx peer chunks = read_loop ctx peer [] 0 chunks
