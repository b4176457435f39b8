-- ===== src/Capture/Run/Panics.antt =====
-- When the parts of `encode` do not panic.
use specgate.Prelude.{ℕ, ◌<◌, String, Option, none, some, List, ◌≡◌, refl, sym, arith}
use specgate.Prelude.Int.{ℤ, pos, ◌-ℤ◌, ◌≤ℤ◌, checked_add, checked_add-some, shift_pos}
use specgate.Capture.Evidence.{Status, Completion, result, empty, failed, fault, abandoned}
use specgate.Capture.Wire.{Encoded, ok, err, panic, ◌>>=◌, unix_nanos, wire_status, KeyValue}
use specgate.Capture.Encoding.{
  checked_id, or_err, offset_time, shifted, wire_event, completion_event, status_code,
}
use specgate.Capture.Run.Parts.{or_err-ok}
use specgate.Capture.Encoding.Hex.{checked_id_lem}

abbrev pub NoPanic {ℓ} : {A : Type ℓ} → Encoded A → Type 0
NoPanic (ok a) = Unit
NoPanic (err e) = Unit
NoPanic panic = ⊥

pub NoPanic-bind {ℓ κ} :
    {A : Type ℓ} {B : Type κ} (m : Encoded A) (f : A → Encoded B)
    → NoPanic m
    → ((a : A) → m ≡ ok a → NoPanic (f a))
    → NoPanic (m >>= f)
NoPanic-bind (ok a) f h k = k a refl
NoPanic-bind (err e) f h k = tt
NoPanic-bind panic f h k = h

pub checked_id-NoPanic : (n : ℕ) → 0 < n → n < 18446744073709551616 → NoPanic (checked_id n)
checked_id-NoPanic n positive fits = rw (checked_id_lem n positive fits) tt

pub or_err-NoPanic : (message : String) (o : Option ℤ) → NoPanic (or_err message o)
or_err-NoPanic message none = tt
or_err-NoPanic message (some z) = tt

pub unix_nanos-NoPanic : (z : ℤ) (n : ℕ) → z ≡ pos n → NoPanic (unix_nanos z)
unfolding unix_nanos
unix_nanos-NoPanic z n h = rw h tt

pub wire_status-NoPanic : (s : Status) → NoPanic (wire_status (status_code s))
unfolding wire_status
wire_status-NoPanic s = ground arith

abbrev pub completion_time : Completion → ℤ
completion_time (result order time_ns value) = time_ns
completion_time (empty order time_ns) = time_ns
completion_time (failed order time_ns name value) = time_ns
completion_time (fault order time_ns fault_type message observer) = time_ns
completion_time (abandoned order time_ns) = time_ns

-- Times that do not lie before `from`, which becomes the time `to`.
module _ (from : ℤ) (to : ℕ) (offset : ℤ) (shift : offset ≡ pos to -ℤ from) where
  pub shifted-NoPanic : (value : ℤ) → from ≤ℤ value → NoPanic (shifted value offset)
  unfolding shifted offset_time
  shifted-NoPanic value later =
      NoPanic-bind (offset_time value offset) unix_nanos
        (or_err-NoPanic "CTSC logical timestamp overflow" (checked_add value offset))
        (λ moved h.
          let sum = checked_add-some value offset moved (or_err-ok _ _ moved h) in
          let (n, same) = shift_pos value from to offset moved shift (sym sum) later in
          unix_nanos-NoPanic moved n same)

  pub wire_event-NoPanic :
      (order : ℕ) (time_ns : ℤ) (name : String) (attributes : List KeyValue)
      → from ≤ℤ time_ns
      → NoPanic (wire_event offset order time_ns name attributes)
  wire_event-NoPanic order time_ns name attributes later =
      NoPanic-bind (shifted time_ns offset) _ (shifted-NoPanic time_ns later) (λ t h. tt)

  pub completion_event-NoPanic :
      (c : Completion) → from ≤ℤ completion_time c → NoPanic (completion_event offset c)
  unfolding completion_event
  completion_event-NoPanic (result order time_ns value) h = wire_event-NoPanic order time_ns _ _ h
  completion_event-NoPanic (empty order time_ns) h = wire_event-NoPanic order time_ns _ _ h
  completion_event-NoPanic (failed order time_ns name value) h =
      wire_event-NoPanic order time_ns _ _ h
  completion_event-NoPanic (fault order time_ns fault_type message observer) h =
      wire_event-NoPanic order time_ns _ _ h
  completion_event-NoPanic (abandoned order time_ns) h = wire_event-NoPanic order time_ns _ _ h
