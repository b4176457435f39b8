-- ===== src/Render.antt =====
-- trace_model.rs: `AnyValue::display` and `CanonicalValue::display`, and the diagnostics that
-- validation collects (validation/mod.rs).
pub mod Display
use specgate.Prelude.{ℕ, String, Bool, true, false, List, [], ◌∷◌, Option, none, some}
use specgate.Prelude.{if◌then◌else◌}
use specgate.Prelude.Text.{format}

-- The renderings that stand outside the repository: `{:?}` of a text, `serde_json` of a text,
-- the standard base64 of bytes, and `{}` of a finite binary64 given by its bits.
pub record Format : Type 0 where
  pub debug : String → String
  pub json : String → String
  pub base64 : List ℕ → String
  pub float : ℕ → String

-- `{:?}` of an optional text
abbrev pub debug_option : Format → Option String → String
debug_option fmt none = "None"
debug_option fmt (some s) = format ("Some(" ∷ fmt.debug s ∷ ")" ∷ [])

-- `{:?}` of an optional `RawText`, a tuple struct
abbrev pub debug_raw : Format → Option String → String
debug_raw fmt none = "None"
debug_raw fmt (some s) = format ("Some(RawText(" ∷ fmt.debug s ∷ "))" ∷ [])

pub record ValidationIssue : Type 0 where
  pub location : String
  pub message : String

-- A validator returns the issues that it pushes, in order.
abbrev pub Issues : Type 0
Issues = List ValidationIssue

abbrev pub issue : String → String → Issues
issue location message = record { location = location; message = message } ∷ []

abbrev pub require : Bool → String → String → Issues
require condition location message = if condition then [] else issue location message

-- `Loaded<T>`
pub record Loaded (A : Type 0) : Type 0 where
  pub value : Option A
  pub issues : Issues
