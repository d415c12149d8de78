-- ===== src/Report/Delivery.antt =====
-- The delivery of reports, simulation/common.rs lines 12 to 202: the bounded queue, the tasks that
-- empty it, and the attempts of one task. The HTTP server that takes the reports is a parameter, and so
-- are the identifier and the time that a report is stamped with.
pub mod Attempts
pub mod Queue
use seclab_suite_protocol_si.Base.{
  List, Option, [], context, if◌then◌else◌, is_empty, length, ltb, none, some, suc, unwrap_or, zero,
  ℕ, ◌%◌, ◌*◌, ◌++◌, ◌+◌, ◌==◌, ◌^◌, ◌||◌, ◌∷◌,
}
use seclab_suite_protocol_si.Base.Text.{Text, codes}
use seclab_suite_protocol_si.Report.{SimLogDraft}
use seclab_suite_protocol_si.Catalog.Launch.{BoundEndpoint}

abbrev pub queue_capacity : ℕ
queue_capacity = 1024

abbrev pub concurrency : ℕ
concurrency = 4

abbrev pub report_attempts : ℕ
report_attempts = 3

pub record QueuedLog : Type 0 where
  pub draft : SimLogDraft
  pub endpoint_id : Option Text

pub record ReporterContext : Type 0 where
  pub callback_url : Text
  pub callback_token : Text
  pub instance_id : Text
  pub endpoints : List BoundEndpoint

-- `serde_json::Value`, as far as it is used.
pub data Value : Type 0 where
  string : Text → Value
  number : ℕ → Value

pub record SimulationRuntimeEvent : Type 0 where
  pub schema_version : ℕ
  pub event_id : Text
  pub instance_id : Text
  pub endpoint_id : Text
  pub event_type : Text
  pub summary : Text
  pub client_ip : Text
  pub client_port : ℕ
  pub metadata : List (Text × Value)
  pub payload_hex : Option Text
  pub timestamp : Text

-- The endpoint that the port of a draft belongs to.
unfoldable pub endpoint_of_port : List BoundEndpoint → ℕ → Text
endpoint_of_port [] port = codes "main"
endpoint_of_port (endpoint ∷ endpoints) port =
    let rest = endpoint_of_port endpoints port in
    if endpoint.container_port == port then endpoint.endpoint_id else rest

unfoldable pub runtime_event : ReporterContext → Text → Text → QueuedLog → SimulationRuntimeEvent
unfolding endpoint_of_port
runtime_event context event_id timestamp queued = record {
  schema_version = 1;
  event_id = event_id;
  instance_id = context.instance_id;
  endpoint_id =
      unwrap_or queued.endpoint_id (endpoint_of_port context.endpoints queued.draft.server_port);
  event_type = queued.draft.event_type;
  summary = queued.draft.detail_summary;
  client_ip = queued.draft.client_ip;
  client_port = queued.draft.client_port;
  metadata =
      (codes "nodeId", string queued.draft.node_id)
      ∷ (codes "ruleId", string queued.draft.rule_id)
      ∷ (codes "serverPort", number queued.draft.server_port)
      ∷ [];
  payload_hex = queued.draft.payload_hex;
  timestamp = timestamp;
}

-- What a request comes to: a status of the three kinds that are told apart, or no response.
pub data Response : Type 0 where
  success client_error other_status unreachable : Response

-- A request: where it goes, the token that it bears, if any, and the event in its body.
pub record Request : Type 0 where
  pub url : Text
  pub bearer : Option Text
  pub event : SimulationRuntimeEvent

-- `client.post(..).json(..)`, with `bearer_auth` where the token is not empty.
abbrev pub request_of : ReporterContext → SimulationRuntimeEvent → Request
request_of context event = record {
  url = context.callback_url;
  bearer = if is_empty context.callback_token then none else some context.callback_token;
  event = event;
}

-- What a task does, and what it ends with.
pub data Action : Type 0 where
  posts : Request → Action
  sleeps : ℕ → Action

pub data Verdict : Type 0 where
  accepted refused given_up : Verdict

abbrev pub first_action : Action → List Action × Verdict → List Action × Verdict
first_action action (actions, verdict) = (action ∷ actions, verdict)

-- What follows a response: the end of the loop, or a pause and the other attempts.
abbrev after_response : Response → ℕ → ℕ → List Action × Verdict → List Action × Verdict
after_response success turns attempt later = ([], accepted)
after_response client_error turns attempt later = ([], refused)
after_response _ zero attempt later = ([], given_up)
after_response _ (suc turns) attempt later = first_action (sleeps (100 * 2 ^ attempt)) later

-- The `for` loop: the turns left, and the attempt. The server answers each attempt in its own way.
unfoldable pub attempt_loop :
    (ℕ → Response) → ReporterContext → SimulationRuntimeEvent → ℕ → ℕ → List Action × Verdict
attempt_loop send context event zero attempt = ([], given_up)
attempt_loop send context event (suc turns) attempt =
    let later = attempt_loop send context event turns (attempt + 1) in
    first_action (posts (request_of context event))
      (after_response (send attempt) turns attempt later)

-- A task, for one queued log.
unfoldable pub deliver :
    (ℕ → Response) → ReporterContext → Text → Text → QueuedLog → List Action × Verdict
unfolding attempt_loop runtime_event
deliver send context event_id timestamp queued =
    attempt_loop send context (runtime_event context event_id timestamp queued) report_attempts 0

-- The sender and the task of `run_reporter`: the channel, the running tasks, and DROPPED_EVENTS. The
-- sender is never dropped, so the channel is never closed.
pub record Reporter : Type 0 where
  pub queue : List QueuedLog
  pub requests : List QueuedLog
  pub dropped : ℕ

abbrev pub idle : Reporter
idle = record { queue = []; requests = []; dropped = 0 }

-- `queue_sim_log`: the reporter after it, and the count that is warned of.
unfoldable pub queue_sim_log : Reporter → QueuedLog → Reporter × Option ℕ
queue_sim_log reporter queued =
    if ltb (length reporter.queue) queue_capacity
    then (record reporter { queue = reporter.queue ++ (queued ∷ []) }, none)
    else let dropped = (reporter.dropped + 1) % 2 ^ 64 in
      (
        record reporter { dropped = dropped },
        if dropped == 1 || dropped % 100 == 0 then some dropped else none,
      )

-- The arm of `receiver.recv`, where its guard and the queue allow it.
abbrev pub spawn_first : Reporter → List QueuedLog → Option Reporter
spawn_first reporter [] = none
spawn_first reporter (queued ∷ queue) =
    some (record reporter { queue = queue; requests = reporter.requests ++ (queued ∷ []) })

unfoldable pub receive : Reporter → Option Reporter
receive reporter =
    if ltb (length reporter.requests) concurrency then spawn_first reporter reporter.queue else none

abbrev pub remove : {A : Type 0} → List A → ℕ → List A
remove [] i = []
remove (x ∷ l) zero = l
remove (x ∷ l) (suc i) = x ∷ remove l i

-- The arm of `join_next`, where the task at a position has ended.
unfoldable pub join_next : Reporter → ℕ → Option Reporter
join_next reporter i =
    if ltb i (length reporter.requests)
    then some (record reporter { requests = remove reporter.requests i })
    else none
