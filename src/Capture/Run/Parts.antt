-- ===== src/Capture/Run/Parts.antt =====
-- What each part of `encode` returns when it returns: its id, parent, name and times.
use specgate.Prelude.{
  ℕ, ◌+◌, ◌<◌, String, Bool, Option, none, some, List, ◌≡◌, arith, if◌then◌else◌,
}
use specgate.Prelude.Int.{ℤ, pos, negsuc, ◌+ℤ◌, checked_add, checked_add-some}
use specgate.Prelude.Order.{string_order}
use specgate.Names.{run_span, scenario_span, op_span}
use specgate.Capture.Evidence.{Status, Operation, Capture}
use specgate.Capture.Wire.{
  ok, >>=-eq-ok, wire_trace_id, wire_span_id, unix_nanos, wire_status, Span,
}
use specgate.Capture.Encoding.{
  checked_id, span_id, next_of, or_err, offset_time, shifted, observation_events, completion_events,
  status_code, Placement, operation_span,
}
use specgate.Capture.Scenario.{scenario_wire}
use specgate.Capture.Run.{run_wire}

pub checked_id-ok : (n : ℕ) (id : List ℕ) → checked_id n ≡ ok id → id ≡ span_id n
unfolding checked_id wire_span_id
checked_id-ok n id h = ground arith

pub next_of-ok : (n m : ℕ) → next_of n ≡ ok m → (m ≡ n + 1) × (n + 1 < 18446744073709551616)
unfolding next_of
next_of-ok n m h = ground arith

pub or_err-ok : (message : String) (o : Option ℤ) (z : ℤ) → or_err message o ≡ ok z → o ≡ some z
or_err-ok message none z h = absurd (ground arith)
or_err-ok message (some y) z h = ground arith

pub unix_nanos-ok : (z : ℤ) (n : ℕ) → unix_nanos z ≡ ok n → z ≡ pos n
unfolding unix_nanos
unix_nanos-ok (pos m) n h = ground arith
unix_nanos-ok (negsuc m) n h = absurd (ground arith)

pub shifted-ok : (z offset : ℤ) (n : ℕ) → shifted z offset ≡ ok n → z +ℤ offset ≡ pos n
unfolding shifted offset_time
shifted-ok z offset n h =
    let (t, added, h1) = >>=-eq-ok (offset_time z offset) _ h in
    let found = or_err-ok "CTSC logical timestamp overflow" (checked_add z offset) t added in
    let same = checked_add-some z offset t found in ground (arith, unix_nanos-ok t n h1)

-- The span of an operation, in its place.
pub record IsPlaced (operation : Operation) (place : Placement) (span : Span) : Type 0 where
  pub named : span.name ≡ op_span
  pub id : span.id ≡ place.id
  pub parent : span.parent_id ≡ some place.parent_id
  pub start_ns : operation.start_ns +ℤ place.offset ≡ pos span.start_ns
  pub end_ns : operation.end_ns +ℤ place.offset ≡ pos span.end_ns

pub operation_span-IsPlaced :
    (trace_id : List ℕ) (operation : Operation) (place : Placement) (span : Span)
    → operation_span trace_id operation place ≡ ok span
    → IsPlaced operation place span
unfolding operation_span
operation_span-IsPlaced trace_id operation place span h =
    let (observed, p1, h1) =
      >>=-eq-ok (observation_events place.offset operation.observations) _ h in
    let (completed, p2, h2) =
      >>=-eq-ok (completion_events place.offset operation.completion) _ h1 in
    let (trace, p3, h3) = >>=-eq-ok (wire_trace_id trace_id) _ h2 in
    let (start_ns, p5, h5) = >>=-eq-ok (shifted operation.start_ns place.offset) _ h3 in
    let (end_ns, p6, h6) = >>=-eq-ok (shifted operation.end_ns place.offset) _ h5 in
    let (status, p7, h7) = >>=-eq-ok (wire_status (status_code operation.status)) _ h6 in
    record {
      named = ground arith;
      id = ground arith;
      parent = ground arith;
      start_ns = ground (arith, shifted-ok operation.start_ns place.offset start_ns p5);
      end_ns = ground (arith, shifted-ok operation.end_ns place.offset end_ns p6);
    }

-- The span of a scenario, and that of the run.
pub record IsBoundary (name : String) (own_id : List ℕ) (above : Option (List ℕ))
    (start_time end_time : ℤ) (span : Span) : Type 0 where
  pub named : span.name ≡ name
  pub id : span.id ≡ own_id
  pub parent : span.parent_id ≡ above
  pub start_ns : start_time ≡ pos span.start_ns
  pub end_ns : end_time ≡ pos span.end_ns

pub scenario_wire-IsBoundary :
    (trace_id : List ℕ) (capture : Capture) (index : ℕ) (scenario_id run_id : List ℕ)
    (start_time end_time : ℤ) (span : Span)
    → scenario_wire trace_id capture index scenario_id run_id start_time end_time ≡ ok span
    → IsBoundary scenario_span scenario_id (some run_id) start_time end_time span
unfolding scenario_wire
scenario_wire-IsBoundary trace_id capture index scenario_id run_id start_time end_time span h =
    let (trace, p1, h1) = >>=-eq-ok (wire_trace_id trace_id) _ h in
    let (start_ns, p3, h3) = >>=-eq-ok (unix_nanos start_time) _ h1 in
    let (end_ns, p4, h4) = >>=-eq-ok (unix_nanos end_time) _ h3 in
    let (status, p5, h5) = >>=-eq-ok (wire_status (status_code capture.scenario.status)) _ h4 in
    record {
      named = ground arith;
      id = ground arith;
      parent = ground arith;
      start_ns = ground (arith, unix_nanos-ok start_time start_ns p3);
      end_ns = ground (arith, unix_nanos-ok end_time end_ns p4);
    }

pub run_wire-IsBoundary :
    (trace_id : List ℕ) (run_id : String) (id : List ℕ) (end_time : ℤ) (has_error : Bool)
    (span : Span)
    → run_wire trace_id run_id id end_time has_error ≡ ok span
    → IsBoundary run_span id none (pos 1) end_time span
unfolding run_wire
run_wire-IsBoundary trace_id run_id id end_time has_error span h =
    let (trace, p1, h1) = >>=-eq-ok (wire_trace_id trace_id) _ h in
    let (end_ns, p4, h4) = >>=-eq-ok (unix_nanos end_time) _ h1 in
    let (status, p5, h5) =
      >>=-eq-ok (wire_status (status_code (if has_error then Status.error else Status.ok))) _ h4 in
    record {
      named = ground arith;
      id = ground arith;
      parent = ground arith;
      start_ns = ground arith;
      end_ns = ground (arith, unix_nanos-ok end_time end_ns p4);
    }
