-- ===== src/Report/Tests.antt =====
-- The delivery of a report.
use seclab_suite_protocol_si.Base.{All, [], none, refl, some, suc, zero, ℕ, ◌∷◌, ◌≡◌, ◌≤◌}
use seclab_suite_protocol_si.Base.Text.{codes}
use seclab_suite_protocol_si.Report.{draft}
use seclab_suite_protocol_si.Report.Delivery.{
  QueuedLog, ReporterContext, Response, deliver, idle, join_next, other_status, queue_sim_log,
  receive, runtime_event, success,
}
use seclab_suite_protocol_si.Report.Delivery.Attempts.{
  PostsOnly, deliver-verdict_of, posts_in, read_for_verdict, slept_in, verdict_of,
}
use seclab_suite_protocol_si.Report.Delivery.Queue.{
  IsAccounted, Reaches, Reaches-IsAccounted, joins, starts, submits, takes,
}

abbrev queued : QueuedLog
queued = record {
  draft =
      draft (record { rule_id = codes "r"; node_id = codes "n"; port = 25 })
        (record { ip = codes "10.0.0.1"; port = 40000 }) (codes "connection")
        (codes "SMTP client connected") none;
  endpoint_id = none;
}

abbrev reporter_context : ReporterContext
reporter_context = record {
  callback_url = codes "http://suite";
  callback_token = codes "t";
  instance_id = codes "i";
  endpoints = [];
}

-- A server that fails once and then takes the report.
abbrev send : ℕ → Response
send zero = other_status
send (suc attempt) = success

deliver-verdict_of_example :
    ((deliver send reporter_context (codes "e") (codes "now") queued).1
      ≡ verdict_of (send 0 ∷ send 1 ∷ send 2 ∷ []))
    × (posts_in (deliver send reporter_context (codes "e") (codes "now") queued).0
        ≡ read_for_verdict (send 0 ∷ send 1 ∷ send 2 ∷ []))
    × (slept_in (deliver send reporter_context (codes "e") (codes "now") queued).0 ≤ 300)
    × All
        (PostsOnly reporter_context
          (runtime_event reporter_context (codes "e") (codes "now") queued))
        (deliver send reporter_context (codes "e") (codes "now") queued).0
deliver-verdict_of_example =
    deliver-verdict_of send reporter_context (codes "e") (codes "now") queued

-- A report that is submitted, taken and delivered.
waiting : Reaches (queued ∷ []) [] 0 0 (record { queue = queued ∷ []; requests = []; dropped = 0 })
unfolding queue_sim_log
waiting = submits queued starts

taken_step :
    receive (record { queue = queued ∷ []; requests = []; dropped = 0 })
    ≡ some (record { queue = []; requests = queued ∷ []; dropped = 0 })
unfolding receive
taken_step = refl

joined_step : join_next (record { queue = []; requests = queued ∷ []; dropped = 0 }) 0 ≡ some idle
unfolding join_next
joined_step = refl

delivered : Reaches (queued ∷ []) (queued ∷ []) 1 0 idle
delivered = joins 0 (takes queued [] waiting refl taken_step) joined_step

Reaches-IsAccounted_example : IsAccounted (queued ∷ []) (queued ∷ []) 1 0 idle
Reaches-IsAccounted_example = Reaches-IsAccounted delivered
