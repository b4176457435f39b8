-- ===== src/Compare/Report.antt =====
-- report.rs: the report of a comparison, and the two vectors that the engine pushes to.
use specgate.Prelude.{String, Bool, List, [], ◌∷◌, ◌++◌}
use specgate.Compare.Outcome.{Outcome, done, ◌>>=◌}

pub record ComparisonMismatch : Type 0 where
  pub path : String
  pub expected : String
  pub actual : String

pub record ComparisonDiagnostic : Type 0 where
  pub path : String
  pub message : String

pub record ValidationDiagnostic : Type 0 where
  pub location : String
  pub message : String

pub record ComparisonReport : Type 0 where
  pub policy : String
  pub policy_version : String
  pub reference : String
  pub candidate : String
  pub equivalent : Bool
  pub validation_failures : List ValidationDiagnostic
  pub errors : List ComparisonDiagnostic
  pub mismatches : List ComparisonMismatch

-- What a call pushes, in order, to `errors` and to `mismatches`.
pub record Sink : Type 0 where
  pub errors : List ComparisonDiagnostic
  pub mismatches : List ComparisonMismatch

abbrev pub quiet : Sink
quiet = record { errors = []; mismatches = [] }

abbrev pub mismatch : String → String → String → Sink
mismatch path expected actual = record {
  errors = [];
  mismatches = record { path = path; expected = expected; actual = actual } ∷ [];
}

abbrev pub comparison_error : String → String → Sink
comparison_error path message = record {
  errors = record { path = path; message = message } ∷ [];
  mismatches = [];
}

abbrev pub push_both : Sink → Sink → Sink
push_both a b = record { errors = a.errors ++ b.errors; mismatches = a.mismatches ++ b.mismatches }

-- One call after the other.
abbrev pub in_turn : Outcome Sink → Outcome Sink → Outcome Sink
in_turn m n = do a ← m; b ← n; done (push_both a b)
