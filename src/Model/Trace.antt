-- ===== src/Model/Trace.antt =====
-- trace_model.rs: trace documents, spans and events.
use specgate.Prelude.{ℕ, String, Option, List}
use specgate.Prelude.Order.{Dict}
use specgate.Model.AnyValues.{AnyValue}

pub data SpanStatus : Type 0 where
  unset ok error : SpanStatus

pub record TraceEvent : Type 0 where
  pub name : String
  pub attributes : Dict String AnyValue

pub record TraceSpan : Type 0 where
  pub trace_id : String
  pub span_id : String
  pub parent_span_id : String
  pub name : String
  pub start_time : Option ℕ
  pub end_time : Option ℕ
  pub attributes : Dict String AnyValue
  pub events : List TraceEvent
  pub status : SpanStatus
  pub resource_attributes : Dict String AnyValue
  pub location : String

pub record TraceDocument : Type 0 where
  pub spans : List TraceSpan
