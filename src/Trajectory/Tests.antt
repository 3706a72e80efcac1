-- ===== src/Trajectory/Tests.antt =====
-- A trace of two events.
use orvex.Prelude.{ℕ, String, true, none, some, List, [], ◌∷◌, ◌≡◌, refl, arith, text_eq, map, inr}
use orvex.Trajectory.Service.{
  Tools, AppendInput, Store, Trace, TraceStatus, get_trace, get_events, content, create_trace,
  append_event, verify_chain,
}
use orvex.Trajectory.Traces.{IsChained}
use orvex.Trajectory.History.{
  Call, create_call, append_call, perform, perform_all, history_verifies, head_commits,
}

-- A hash that is the type of the event.
abbrev tools : Tools ℕ
tools = record { hash = λ c. c.event_type; get_time = λ text. some 9; to_iso_string = λ t. "now" }

abbrev start : Store ℕ
start = record { agents = (1, 2) ∷ []; traces = []; events = []; next_id = 5 }

start-IsChained : IsChained tools start
start-IsChained = record {
  below = tt;
  distinct = tt;
  events_below = tt;
  chained = λ company i t h. absurd (ground (arith, h));
}

abbrev event : ℕ → String → AppendInput ℕ
event n kind = record {
  company_id = 1;
  trace_id = 5;
  agent_id = 2;
  sequence = n;
  event_type = kind;
  timestamp = "today";
  payload = 40;
  provenance_refs = none;
  event_hash = none;
  previous_event_hash = none;
}

-- The third call is out of order.
abbrev calls : List (Call ℕ)
calls =
    create_call 1 2
    ∷ append_call (event 1 "INTENT")
    ∷ append_call (event 3 "LATE")
    ∷ append_call (event 2 "PAY")
    ∷ []

abbrev trace : Trace
trace = record {
  id = 5;
  company_id = 1;
  agent_id = 2;
  status = TraceStatus.active;
  sequence_head = 2;
  head_hash = some "PAY";
  completed_at = none;
}

trace_found : get_trace 1 5 (perform_all tools calls start) ≡ some trace
unfolding perform_all perform create_trace append_event text_eq
trace_found = refl

history_verifies_example : verify_chain tools 1 5 (perform_all tools calls start) ≡ true
history_verifies_example = history_verifies tools calls start 1 5 trace start-IsChained trace_found

abbrev one_event : List (Call ℕ)
one_event = create_call 1 2 ∷ append_call (event 1 "INTENT") ∷ []

abbrev short_trace : Trace
short_trace = record trace { sequence_head = 1; head_hash = some "INTENT" }

-- The same event, then one that is out of order.
abbrev other_calls : List (Call ℕ)
other_calls = create_call 1 2 ∷ append_call (event 1 "INTENT") ∷ append_call (event 4 "LATE") ∷ []

head_commits_example :
    map (content tools.to_iso_string) (get_events 1 5 (perform_all tools one_event start))
    ≡ map (content tools.to_iso_string) (get_events 1 5 (perform_all tools other_calls start))
unfolding perform_all perform create_trace append_event text_eq
head_commits_example =
    head_commits tools one_event other_calls start start 1 5 short_trace short_trace
      ((inr refl, tt), tt) start-IsChained start-IsChained refl refl refl refl
