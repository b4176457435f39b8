-- ===== src/Capture/Wire.antt =====
-- capture/otlp.rs: the OTLP document that is serialized, and the checks of its fields. A text of
-- hexadecimal digits is its bytes, and a timestamp is the number of which its text is the decimal.
use specgate.Prelude.{
  ℕ, String, Bool, not, ◌&&◌, ◌||◌, Option, List, length, ◌==◌, leb, all, any, if◌then◌else◌, ◌≡◌,
  refl,
}
use specgate.Prelude.Int.{ℤ, pos, negsuc}
use specgate.Prelude.Text.{is_digit}

-- What a step of the encoder does: it returns, returns an error, or panics on an `expect`.
pub data Encoded {ℓ} (T : Type ℓ) : Type ℓ where
  panic : Encoded T
  err : (message : String) → Encoded T
  ok : (value : T) → Encoded T

infixl 10 ◌>>=◌
abbrev pub ◌>>=◌ {ℓ κ} :
    {T : Type ℓ} {U : Type κ} (step : Encoded T) (next : T → Encoded U) → Encoded U
panic >>= next = panic
err message >>= next = err message
ok value >>= next = next value

-- Both steps return where the two together return.
pub >>=-eq-ok {ℓ κ} :
    {T : Type ℓ} {U : Type κ} {last : U} (step : Encoded T) (next : T → Encoded U)
    → (step >>= next) ≡ ok last
    → (value : T) × (step ≡ ok value) × (next value ≡ ok last)
>>=-eq-ok panic next h = cc
>>=-eq-ok (err message) next h = cc
>>=-eq-ok (ok value) next h = (value, refl, h)

-- `is_ascii_hexdigit`
abbrev pub is_hex : ℕ → Bool
is_hex c = is_digit c || ((leb b'a' c && leb c b'f') || (leb b'A' c && leb c b'F'))

abbrev pub is_nonzero : List ℕ → Bool
is_nonzero = any (λ c. not (c == b'0'))

-- `try_from(..).expect(..)` of each wire type
unfoldable pub wire_trace_id : List ℕ → Encoded (List ℕ)
wire_trace_id value =
    if (length value == 32) && (all is_hex value && is_nonzero value) then ok value else panic

unfoldable pub wire_span_id : List ℕ → Encoded (List ℕ)
wire_span_id value =
    if (length value == 16) && (all is_hex value && is_nonzero value) then ok value else panic

-- The decimal text of an i64 parses as a u64 if it has no sign.
unfoldable pub unix_nanos : ℤ → Encoded ℕ
unix_nanos (pos n) = ok n
unix_nanos (negsuc n) = panic

unfoldable pub span_kind : ℕ → Encoded ℕ
span_kind value = if leb value 5 then ok value else panic

unfoldable pub wire_status : ℕ → Encoded ℕ
wire_status value = if leb value 2 then ok value else panic

pub data DoubleRepr : Type 0 where
  number : ℕ → DoubleRepr
  symbol : String → DoubleRepr

mutual
  pub data WireValue : Type 0 where
    string : String → WireValue
    bool : Bool → WireValue
    int : ℤ → WireValue
    double : DoubleRepr → WireValue
    array : WireList → WireValue
    kvlist : WirePairs → WireValue

  pub data WireList : Type 0 where
    array_end : WireList
    element : WireValue → WireList → WireList

  pub data WirePairs : Type 0 where
    pairs_end : WirePairs
    key_value : String → WireValue → WirePairs → WirePairs

abbrev pub KeyValue : Type 0
KeyValue = String × WireValue

pub record SpanEvent : Type 0 where
  pub order : ℕ
  pub time_ns : ℕ
  pub name : String
  pub attributes : List KeyValue

pub record Span : Type 0 where
  pub trace_id : List ℕ
  pub name : String
  pub id : List ℕ
  pub parent_id : Option (List ℕ)
  pub kind : ℕ
  pub start_ns : ℕ
  pub end_ns : ℕ
  pub attributes : List KeyValue
  pub events : List SpanEvent
  pub status : ℕ

-- `Document`, with its one `ResourceSpans` and one `ScopeSpans`.
pub record Document : Type 0 where
  pub resource_attributes : List KeyValue
  pub scope_name : String
  pub scope_version : String
  pub spans : List Span
  pub schema_url : String
