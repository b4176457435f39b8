-- ===== src/Capture/Run/Steps.antt =====
-- A scenario of a run in time order is encoded without a panic.
use specgate.Prelude.{
  ℕ, ◌+◌, ◌<◌, String, List, [], ◌∷◌, ◌≡◌, ◌∙◌, sym, ap, inl, inr, arith, Option-cases,
}
use specgate.Prelude.Elem.{All}
use specgate.Prelude.Int.{
  ℤ, pos, ◌-ℤ◌, checked_add, checked_sub, checked_add-some, checked_sub-some, shift_pos,
}
use specgate.Prelude.Order.{string_order, get, insert}
use specgate.Capture.Evidence.{Operation, Capture}
use specgate.Capture.Wire.{wire_trace_id, unix_nanos, wire_status, Span}
use specgate.Capture.Encoding.{checked_id, next_of, or_err, offset_time, status_code}
use specgate.Capture.Scenario.{
  Ids, assign_ids, operation_spans, wire_index, scenario_wire, Progress, encode_scenario,
}
use specgate.Capture.Run.{encode_scenarios}
use specgate.Capture.Run.Parts.{next_of-ok, or_err-ok}
use specgate.Capture.Run.Numbers.{assign_ids-ok}
use specgate.Capture.Run.Single.{encode_scenario-IsScenario}
use specgate.Capture.Run.Layout.{Layout}
use specgate.Capture.Run.Times.{next_time}
use specgate.Capture.Run.Panics.{
  NoPanic, NoPanic-bind, checked_id-NoPanic, or_err-NoPanic, unix_nanos-NoPanic,
  wire_status-NoPanic,
}
use specgate.Capture.Run.Sound.{IsTimely, next_of-NoPanic, operation_spans-NoPanic}

abbrev pub IsId : ℕ → Type 0
IsId n = (0 < n) × (n < 18446744073709551616)

assign_ids-NoPanic :
    (name : String) (os : List Operation) (n : ℕ) (ids : Ids)
    → IsId n
    → NoPanic (assign_ids name os n ids)
unfolding assign_ids
assign_ids-NoPanic name [] n ids h = tt
assign_ids-NoPanic name (o ∷ os) n ids h =
    NoPanic-bind (checked_id n) _ (checked_id-NoPanic n h.0 h.1) (λ id hid.
      NoPanic-bind (next_of n) _ (next_of-NoPanic n) (λ m hm.
        let fits = next_of-ok n m hm in
        elim (Option-cases (get ids o.span_id)) [
          | inl absent ↦ rw absent (
              assign_ids-NoPanic name os m (insert o.span_id id ids)
                (ground (arith, fits), ground (arith, fits)))
          | inr (old, found) ↦ rw found tt
        ]))

wire_index-NoPanic : (n : ℕ) → NoPanic (wire_index n)
unfolding wire_index
wire_index-NoPanic n = ground arith

scenario_wire-NoPanic :
    (trace_id : List ℕ) (capture : Capture) (index : ℕ) (id run_id : List ℕ)
    (start_time end_time : ℤ) (from to : ℕ)
    → NoPanic (wire_trace_id trace_id)
    → start_time ≡ pos from
    → end_time ≡ pos to
    → NoPanic (scenario_wire trace_id capture index id run_id start_time end_time)
unfolding scenario_wire
scenario_wire-NoPanic trace_id capture index id run_id start_time end_time from to traced h k =
    NoPanic-bind (wire_trace_id trace_id) _ traced (λ t ht.
      NoPanic-bind (unix_nanos start_time) _ (unix_nanos-NoPanic start_time from h) (λ s hs.
        NoPanic-bind (unix_nanos end_time) _ (unix_nanos-NoPanic end_time to k) (λ e he.
          NoPanic-bind (wire_status (status_code capture.scenario.status)) _
            (wire_status-NoPanic capture.scenario.status) (λ x hx. tt))))

encode_scenario-NoPanic :
    (trace_id run_id : List ℕ) (index : ℕ) (c : Capture) (p : Progress) (time : ℕ)
    → NoPanic (wire_trace_id trace_id)
    → IsTimely c
    → IsId p.next_id
    → p.next_time ≡ pos time
    → NoPanic (encode_scenario trace_id run_id index c p)
unfolding encode_scenario offset_time
encode_scenario-NoPanic trace_id run_id index c p time traced timely ids now =
    let from = c.scenario.interval.start_ns in
    NoPanic-bind (checked_id p.next_id) _ (checked_id-NoPanic p.next_id ids.0 ids.1) (λ id hid.
      NoPanic-bind (next_of p.next_id) _ (next_of-NoPanic p.next_id) (λ first hfirst.
        let fits = next_of-ok p.next_id first hfirst in
        NoPanic-bind (assign_ids c.scenario_name c.operations first []) _
          (assign_ids-NoPanic c.scenario_name c.operations first []
            (ground (arith, fits), ground (arith, fits)))
          (λ a ha.
            NoPanic-bind
              (or_err "CTSC scenario timestamp offset overflow" (checked_sub p.next_time from)) _
              (or_err-NoPanic _ (checked_sub p.next_time from))
              (λ offset hoffset.
                let shift : offset ≡ pos time -ℤ from =
                  checked_sub-some p.next_time from offset (or_err-ok _ _ offset hoffset)
                  ∙ ap (λ (z : ℤ). z -ℤ from) now in
                NoPanic-bind (offset_time c.scenario.interval.end_ns offset) _
                  (or_err-NoPanic _ (checked_add c.scenario.interval.end_ns offset))
                  (λ end_time hend.
                    let sum =
                      checked_add-some c.scenario.interval.end_ns offset end_time
                        (or_err-ok _ _ end_time hend) in
                    let (to, ended) =
                      shift_pos c.scenario.interval.end_ns from time offset end_time shift (sym sum)
                        timely.scenario in
                    NoPanic-bind (wire_index index) _ (wire_index-NoPanic index) (λ wire hwire.
                      NoPanic-bind (scenario_wire trace_id c wire id run_id p.next_time end_time) _
                        (scenario_wire-NoPanic trace_id c wire id run_id p.next_time end_time time
                          to traced now ended)
                        (λ scenario hscenario.
                          NoPanic-bind
                            (operation_spans trace_id c id a.0 offset c.operations
                              p.operation_count)
                            _
                            (operation_spans-NoPanic from time offset shift trace_id c id a.0
                              c.operations first p.operation_count traced timely.operations
                              (assign_ids-ok c.scenario_name c.operations first [] a ha).2)
                            (λ o ho.
                              NoPanic-bind
                                (or_err "CTSC logical timestamp overflow"
                                  (checked_add end_time (pos 1)))
                                _ (or_err-NoPanic _ (checked_add end_time (pos 1)))
                                (λ n hn. tt)))))))))

pub encode_scenarios-NoPanic :
    (trace_id run_id : List ℕ) (index : ℕ) (captures : List Capture) (p : Progress) (time : ℕ)
    → NoPanic (wire_trace_id trace_id)
    → All IsTimely captures
    → IsId p.next_id
    → p.next_time ≡ pos time
    → NoPanic (encode_scenarios trace_id run_id index captures p)
unfolding encode_scenarios
encode_scenarios-NoPanic trace_id run_id index [] p time traced timely ids now = tt
encode_scenarios-NoPanic trace_id run_id index (c ∷ cs) p time traced timely ids now =
    NoPanic-bind (encode_scenario trace_id run_id index c p) _
      (encode_scenario-NoPanic trace_id run_id index c p time traced timely.0 ids now)
      (λ head h.
        let s = encode_scenario-IsScenario trace_id run_id index c p head h in
        NoPanic-bind (encode_scenarios trace_id run_id (index + 1) cs head.1) _
          (encode_scenarios-NoPanic trace_id run_id (index + 1) cs head.1 (s.scenario.end_ns + 1)
            traced timely.1 (ground (arith, s.next_id), s.bound)
            (s.next_time ∙ next_time s.end_time s.scenario.end_ns s.boundary.end_ns))
          (λ tail k. tt))

pub Layout-time :
    (run_id : List ℕ) (captures : List Capture) (p last : Progress) (spans : List Span) (time : ℕ)
    → Layout run_id captures p spans last
    → p.next_time ≡ pos time
    → (n : ℕ) × (last.next_time ≡ pos n)
Layout-time run_id [] p last spans time l now = (time, ap (λ (x : Progress). x.next_time) l.1 ∙ now)
Layout-time run_id (c ∷ cs) p last spans time (q, first, rest, both, head, tail) now =
    Layout-time run_id cs q last rest (head.scenario.end_ns + 1) tail
      (head.next_time ∙ next_time head.end_time head.scenario.end_ns head.boundary.end_ns)
