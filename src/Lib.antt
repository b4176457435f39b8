-- ===== src/Lib.antt =====
-- specgate: conformance traces, their registries and their comparison, in the crate
-- rust/crates/specgate-ctsc.
--
-- A run of a program under test is recorded as a CTSC trace: spans (a run, its scenarios, the
-- operations, groups of parallel operations) that carry events and typed values. The crate
-- encodes captured evidence as a trace, loads a registry of components from files, validates
-- traces and registries, and compares two traces strictly. `encode` writes the trace of a run.
-- `load_fs` reads a registry with all that it imports and returns the set of its components.
-- A trace passes three stages: `validate_semantics` checks it alone, `check_linked` checks its
-- values and outcomes against the types of the registry set, and `compare_loaded` compares two
-- traces that passed. The comparison rests on the others: it reads canonical values of the
-- registry's types, trusts parents, intervals and inputs, and looks operations up in the same
-- registry.
--
-- Files and what they model (paths under rust/crates/specgate-ctsc/src):
--   Prelude   the native numbers and integers, lists, texts, and ordered maps and sets (BTreeMap,
--             BTreeSet) as lists in key order
--   Model     validation/model.rs (TypeRef, RegistrySet, ...) and validation/trace_model.rs
--             (AnyValue, CanonicalValue, TraceSpan, ...), with the derived order of canonical
--             values in Model/Ordering
--   Names     the constants of the CTSC names
--   Render    display of values, and the issues of validation/mod.rs
--   Index     TraceIndex of comparison/engine.rs
--   Linked    validation/linked.rs: Primitive (validate_primitive, canonical_primitive), Resolve
--             (named types, find_operation), Canonical (canonical_value), Arms and Value
--             (validate_value), Operation (validate_operation, check_linked)
--   Trace     validation/trace.rs and its children: Fault (is_fault), Fields (attribute checks),
--             Roles (SpanRole, EventRole, FaultObserver), Events (validate_events), Ancestry
--             (run_ancestor, validate_ancestry), Semantics (validate_semantics)
--   Compare   comparison/engine.rs and report.rs: Values (compare_value, compare_inputs), Events
--             (compare_events), Children (sequential_children, identity_map), Spans
--             (compare_child and what recurs with it), Documents (compare_documents,
--             compare_loaded)
--   Registry  validation/registry.rs and its children: Checks (unique, digests), Extension
--             (validate_extensions), Shape (validate_shape), Uses (document_uses), Uri
--             (resolve_uri), Files (Filesystem, load_file, insert_candidate), Selection (the loop
--             of load_fs over imports), Cycles (validate_cycles), Scope (resolve_type), References
--             (validate_semantics of registries), Load (load_fs, load_bytes)
--   Capture   capture.rs, capture/encoding.rs and capture/otlp.rs: Evidence and Built
--             (captures and the checks of their builders), Wire (the OTLP document and the checks of its fields),
--             Encoding (identities, times, operation_span, any_value), Scenario and Run (encode,
--             the work on one capture and that on the whole run)
--   Examples  small traces, registries and captures, runs of the definitions, and the theorems at
--             them
--
-- How code is rendered. A validator of the source pushes issues to a vector; here it returns
-- the list of the issues that it pushes, in order. A comparison pushes to two vectors and returns
-- both here (Sink); a call that can panic or recur returns an Outcome, and a step of `encode` an
-- Encoded, which is a value, an error or a panic. `validate_value` and
-- `canonical_value` recur on the type in the source, and at a named type on its definition; here
-- the type is resolved first and the recursion is on the value, which every other recursive call
-- makes smaller. The arms of a match on types are functions of their own, which take the
-- recursive calls as arguments. The `path` and `seen` of the ancestry walk hold the same keys and
-- are one list; so are `documents` and `document_paths` of load_fs one map. A finite binary64 is
-- the number of its bits. A wire timestamp is the number of which the source holds the decimal
-- text. The integer of a trace value, an i64 in the source, is any integer; a result that rests on
-- its range asks for it. Paths are the same when their texts are, where the source compares their
-- components, so that `a//b` and `a/b` are one path there and two here.
--
-- Fuel. The ancestry walk takes one more than the number of spans. The recursion of the
-- comparison takes one more than the number of spans of the reference. Each round of
-- the walk adds a span to the path that it did not pass before, and each call of the comparison
-- goes one step further down from the run of the reference. The loop of load_fs takes fuel from
-- its caller; each round selects a file that was not selected before, so that more than the
-- number of readable files are enough. The walk of validate_cycles has a fuel of its own, one
-- more than the number of documents, since each document is walked into once.
--
-- Parameters. The rendering of JSON texts (serde_json), of bytes (base64), of a text under `{:?}`
-- (which consults tables of Unicode) and of a finite float are the fields of Format. They stand in
-- messages and rendered values only, and the results hold for every choice of them. The parsing
-- of a registry document (serde_json), SHA-256, operations on paths, the parsing of an authority
-- and percent decoding are the fields of Libraries, the text of an error of the ohno crate is
-- `show_error`, and `to_json` serializes a trace.
--
-- Not modelled: the parsing of traces (load_bytes of validation/trace.rs, otlp.rs), the reading
-- of files for a comparison (comparison/loading.rs), bundles, replay, the normalised registries
-- of registry.rs, the branch of resolve_uri for Windows, the other crates, and the descriptions
-- and extension values of registries, which no modelled function reads.
pub mod Prelude
pub mod Model
pub mod Names
pub mod Render
pub mod Index
pub mod Linked
pub mod Trace
pub mod Compare
pub mod Registry
pub mod Capture
pub mod Examples
