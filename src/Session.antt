-- ===== src/Session.antt =====
-- What a connection does that others see. A peer's stream is the list of the bytes that it sends before
-- it closes. Writing succeeds: a write that fails, the timeout of a connection and the shutdown cut
-- a trace off after some of its events.
pub mod Lines
pub mod Reach
use seclab_suite_protocol_si.Base.{List, Option, none, some, ◌++◌}
use seclab_suite_protocol_si.Base.Bits.{Bytes}
use seclab_suite_protocol_si.Report.{SimLogDraft}

-- Bytes written to the peer, and a report queued.
pub data Event : Type 0 where
  sent : Bytes → Event
  reported : SimLogDraft → Event

-- The events of a connection, and the error that its handler returned, if any.
pub record Trace (E : Type 0) : Type 0 where
  pub events : List Event
  pub failure : Option E

module _ {E : Type 0} where
  abbrev pub finished : List Event → Trace E
  finished events = record { events = events; failure = none }

  abbrev pub failed : List Event → E → Trace E
  failed events e = record { events = events; failure = some e }

  -- Events, and then a trace.
  abbrev pub then_trace : List Event → Trace E → Trace E
  then_trace events trace = record trace { events = events ++ trace.events }
