-- ===== src/Trajectory/Service.antt =====
-- The methods of `TrajectoryService`. `sha256Json` of the hashed fields is a parameter; the
-- columns that are only stored (sourceRef, trustContext, intentId) are left out.
use orvex.Prelude.{
  ℕ, suc, ◌+◌, String, Bool, true, false, not, ◌&&◌, Option, none, some, List, [], ◌∷◌, ◌++◌, ◌==◌,
  leb, any, filter, text_eq, coalesce,
}
use orvex.Errors.{invalid_input, not_found, tenant_error, conflict}
use orvex.Outcome.{
  core, range_error, database_error, Action, pure, gets, or_throw, throw_if, modify, transaction,
  ◌>>=◌, ◌>>◌,
}
use orvex.Table.{find_first, update_first}
use orvex.Policy.Engine.{sort}

pub data TraceStatus : Type 0 where
  active completed aborted corrupted : TraceStatus

pub record Trace : Type 0 where
  pub id : ℕ
  pub company_id : ℕ
  pub agent_id : ℕ
  pub status : TraceStatus
  pub sequence_head : ℕ
  pub head_hash : Option String
  pub completed_at : Option ℕ

-- The fields that `computeEventHash` hashes.
pub record EventContent (P : Type 0) : Type 0 where
  pub trace_id : ℕ
  pub sequence : ℕ
  pub event_type : String
  pub timestamp : String
  pub payload : P
  pub provenance_refs : List String
  pub previous_event_hash : String

pub record Event (P : Type 0) : Type 0 where
  pub trace_id : ℕ
  pub company_id : ℕ
  pub agent_id : ℕ
  pub sequence : ℕ
  pub event_type : String
  pub timestamp : ℕ
  pub payload : P
  pub provenance_refs : Option (List String)
  pub previous_event_hash : String
  pub event_hash : String

pub record AppendInput (P : Type 0) : Type 0 where
  pub company_id : ℕ
  pub trace_id : ℕ
  pub agent_id : ℕ
  pub sequence : ℕ
  pub event_type : String
  pub timestamp : String
  pub payload : P
  pub provenance_refs : Option (List String)
  pub event_hash : Option String
  pub previous_event_hash : Option String

-- The agents are pairs of a company and an agent.
pub record Store (P : Type 0) : Type 0 where
  pub agents : List (ℕ × ℕ)
  pub traces : List Trace
  pub events : List (Event P)
  pub next_id : ℕ

-- What the service takes from elsewhere: `sha256Json` of the hashed fields, the time of a text
-- in milliseconds where it is a date, and `toISOString`.
pub record Tools (P : Type 0) : Type 0 where
  pub hash : EventContent P → String
  pub get_time : String → Option ℕ
  pub to_iso_string : ℕ → String

abbrev pub genesis_hash : String
genesis_hash = "sha256:genesis"

abbrev pub is_active : TraceStatus → Bool
is_active active = true
is_active _ = false

-- A value that is given and is another one.
abbrev pub is_other : Option String → String → Bool
is_other none t = false
is_other (some s) t = not (text_eq s t)

abbrev pub is_trace : ℕ → ℕ → Trace → Bool
is_trace company i t = t.id == i && t.company_id == company

abbrev pub head : Trace → String
head t = coalesce t.head_hash genesis_hash

abbrev pub new_trace : ℕ → ℕ → ℕ → Trace
new_trace company agent id = record {
  id = id;
  company_id = company;
  agent_id = agent;
  status = active;
  sequence_head = 0;
  head_hash = some genesis_hash;
  completed_at = none;
}

module _ {P : Type 0} where
  abbrev pub is_event_of : ℕ → ℕ → Event P → Bool
  is_event_of company i e = e.trace_id == i && e.company_id == company

  abbrev pub get_trace : ℕ → ℕ → Store P → Option Trace
  get_trace company i s = find_first (is_trace company i) s.traces

  abbrev pub in_order : Event P → Event P → Bool
  in_order a b = leb a.sequence b.sequence

  abbrev pub get_events : ℕ → ℕ → Store P → List (Event P)
  get_events company i s = sort in_order (filter (is_event_of company i) s.events)

  abbrev pub get_timeline : ℕ → ℕ → Store P → Option (Trace × List (Event P))
  get_timeline company i s = elim (get_trace company i s) [
    | none ↦ none
    | some t ↦ some (t, get_events company i s)
  ]

  abbrev pub add_trace : Trace → Store P → Store P
  add_trace t s = record s { traces = s.traces ++ t ∷ []; next_id = suc s.next_id }

  unfoldable pub create_trace : ℕ → ℕ → Action (Store P) Trace
  create_trace company agent = do
    known ← gets (λ s. any (λ a. a.0 == company && a.1 == agent) s.agents)
    throw_if (not known) (core tenant_error)
    trace ← gets (λ s. new_trace company agent s.next_id)
    modify (add_trace trace)
    pure trace

  abbrev pub set_trace : ℕ → (Trace → Trace) → Store P → Store P
  set_trace i f s = record s { traces = update_first (λ t. t.id == i) f s.traces }

  -- `completeTrace`, which does not ask for the status.
  unfoldable pub complete_trace : ℕ → ℕ → ℕ → Action (Store P) Trace
  complete_trace company i now = do
    found ← gets (get_trace company i)
    trace ← or_throw (core not_found) found
    modify (set_trace trace.id (λ t. record t { status = completed; completed_at = some now }))
    pure (record trace { status = completed; completed_at = some now })

  -- The hashed fields of a row.
  abbrev pub content : (ℕ → String) → Event P → EventContent P
  content show e = record {
    trace_id = e.trace_id;
    sequence = e.sequence;
    event_type = e.event_type;
    timestamp = show e.timestamp;
    payload = e.payload;
    provenance_refs = coalesce e.provenance_refs [];
    previous_event_hash = e.previous_event_hash;
  }

module _ {P : Type 0} (tools : Tools P) where
  open tools use {hash, get_time, to_iso_string}

  abbrev pub compute_event_hash : AppendInput P → ℕ → String → String
  compute_event_hash input time previous = hash (record {
    trace_id = input.trace_id;
    sequence = input.sequence;
    event_type = input.event_type;
    timestamp = to_iso_string time;
    payload = input.payload;
    provenance_refs = coalesce input.provenance_refs [];
    previous_event_hash = previous;
  })

  abbrev pub new_event : AppendInput P → ℕ → String → Event P
  new_event input time previous = record {
    trace_id = input.trace_id;
    company_id = input.company_id;
    agent_id = input.agent_id;
    sequence = input.sequence;
    event_type = input.event_type;
    timestamp = time;
    payload = input.payload;
    provenance_refs = input.provenance_refs;
    previous_event_hash = previous;
    event_hash = compute_event_hash input time previous;
  }

  abbrev pub is_same_place : Event P → Event P → Bool
  is_same_place e x = x.trace_id == e.trace_id && x.sequence == e.sequence

  -- The two writes of `appendEvent`; the insert is refused by the unique (trace, sequence).
  unfoldable pub write_event : Trace → Event P → Action (Store P) (Event P)
  write_event trace e = do
    taken ← gets (λ s. any (is_same_place e) s.events)
    throw_if taken database_error
    modify (λ s. record s { events = s.events ++ e ∷ [] })
    modify (
        set_trace trace.id
          (λ t. record t { sequence_head = e.sequence; head_hash = some e.event_hash }))
    pure e

  -- A replay of an event that is there, or the writes.
  unfoldable pub write_once : Trace → Event P → Action (Store P) (Event P)
  unfolding write_event
  write_once trace e s = elim (find_first (λ x. text_eq x.event_hash e.event_hash) s.events) [
    | some dup ↦ pure dup s
    | none ↦ write_event trace e s
  ]

  -- The checks of the trace that was found, and of what the caller says of the chain.
  unfoldable pub append_to : AppendInput P → Trace → Action (Store P) (Event P)
  unfolding write_once
  append_to input trace = do
    throw_if (not (input.agent_id == trace.agent_id)) (core invalid_input)
    throw_if (not (is_active trace.status)) (core conflict)
    throw_if (not (input.sequence == trace.sequence_head + 1)) (core invalid_input)
    throw_if (is_other input.previous_event_hash (head trace)) (core invalid_input)
    time ← or_throw range_error (get_time input.timestamp)
    throw_if (is_other input.event_hash (compute_event_hash input time (head trace)))
        (core invalid_input)
    write_once trace (new_event input time (head trace))

  unfoldable pub append_event : AppendInput P → Action (Store P) (Event P)
  unfolding append_to
  append_event input = transaction (do
    found ← gets (get_trace input.company_id input.trace_id)
    trace ← or_throw (core not_found) found
    append_to input trace)

  -- The loop of `verifyChain`.
  unfoldable pub verify_from : ℕ → String → ℕ → List (Event P) → Bool
  verify_from i previous sequence [] = true
  verify_from i previous sequence (e ∷ es) =
      (e.sequence == sequence)
      && (text_eq e.previous_event_hash previous
          && (text_eq
                (hash (record (content to_iso_string e) {
                  trace_id = i;
                  previous_event_hash = previous;
                }))
                e.event_hash
              && verify_from i e.event_hash (sequence + 1) es))

  unfoldable pub verify_chain : ℕ → ℕ → Store P → Bool
  unfolding verify_from
  verify_chain company i s = verify_from i genesis_hash 1 (get_events company i s)
