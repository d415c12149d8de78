-- ===== src/Report/Delivery/Attempts.antt =====
-- The attempts of a task against what the server answers.
use seclab_suite_protocol_si.Base.{
  All, List, Option, [], arith, context, if◌then◌else◌, is_empty, none, refl, some, suc, ℕ, ◌+◌,
  ◌∷◌, ◌≡◌, ◌≢◌, ◌≤◌,
}
use seclab_suite_protocol_si.Base.Text.{Text}
use seclab_suite_protocol_si.Report.Delivery.{
  Action, QueuedLog, ReporterContext, Response, SimulationRuntimeEvent, Verdict, accepted,
  client_error, deliver, given_up, posts, refused, runtime_event, sleeps, success,
}

-- The verdict of the responses, read one after the other: the first that settles it, if any does.
abbrev pub verdict_of : List Response → Verdict
verdict_of [] = given_up
verdict_of (success ∷ responses) = accepted
verdict_of (client_error ∷ responses) = refused
verdict_of (_ ∷ responses) = verdict_of responses

-- How many responses are read for it.
abbrev pub read_for_verdict : List Response → ℕ
read_for_verdict [] = 0
read_for_verdict (success ∷ responses) = 1
read_for_verdict (client_error ∷ responses) = 1
read_for_verdict (_ ∷ responses) = suc (read_for_verdict responses)

-- The requests among the actions, and the milliseconds of the pauses.
abbrev pub posts_in : List Action → ℕ
posts_in [] = 0
posts_in (posts request ∷ actions) = suc (posts_in actions)
posts_in (sleeps n ∷ actions) = posts_in actions

abbrev pub slept_in : List Action → ℕ
slept_in [] = 0
slept_in (posts request ∷ actions) = slept_in actions
slept_in (sleeps n ∷ actions) = n + slept_in actions

-- The token is borne by the request, unless it is empty.
abbrev pub Bears : Text → Option Text → Type 0
Bears token none = token ≡ []
Bears token (some borne) = (borne ≡ token) × (token ≢ [])

-- Every request goes to the URL of the context with its token and one event.
abbrev pub PostsOnly : ReporterContext → SimulationRuntimeEvent → Action → Type 0
PostsOnly context event (posts request) =
    (request.url ≡ context.callback_url)
    × Bears context.callback_token request.bearer
    × (request.event ≡ event)
PostsOnly context event (sleeps n) = Unit

Bears-request_of : (token : Text) → Bears token (if is_empty token then none else some token)
Bears-request_of [] = refl
Bears-request_of (c ∷ token) = (refl, λ e. cc)

-- A task settles a report the way the first settling response among three does, with one request for each
-- response up to it, and it pauses for 300 milliseconds at most. Each request goes to the callback URL,
-- bears the token unless that is empty, and has the same event.
pub deliver-verdict_of :
    (send : ℕ → Response) (context : ReporterContext) (event_id timestamp : Text)
    (queued : QueuedLog)
    → let (actions, verdict) = deliver send context event_id timestamp queued in
      (verdict ≡ verdict_of (send 0 ∷ send 1 ∷ send 2 ∷ []))
      × (posts_in actions ≡ read_for_verdict (send 0 ∷ send 1 ∷ send 2 ∷ []))
      × (slept_in actions ≤ 300)
      × All (PostsOnly context (runtime_event context event_id timestamp queued)) actions
unfolding deliver
deliver-verdict_of send context event_id timestamp queued =
    ground (arith, Bears-request_of context.callback_token)
