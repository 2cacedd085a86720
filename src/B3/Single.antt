-- ===== src/B3/Single.antt =====
-- propagation/b3/spancontext.go, `ParseSingleHeader` and `BuildSingleHeader`. A slice or an index past
-- the end of the header is a panic, as it is in Go. The proofs are in the modules below.
pub mod Shape
pub mod State
pub mod RoundTrip
pub mod Panics
use zipkin_go.Base.{
  ℕ, ◌+◌, Bool, true, false, ◌&&◌, ◌||◌, not, Option, none, some, List, [], ◌∷◌, ◌++◌, Str, codes,
  str_eq, ltb, leb, ◌==◌, if◌then◌else◌, Outcome, ok, err, panic, ◌>>=◌, or_error, index, slice,
  length, join, rune_str, Error, empty_context_error, invalid_scope, invalid_trace_id_value,
  invalid_span_id_value, invalid_sampled_byte, invalid_scope_parent_single,
  invalid_parent_span_id_value,
}
use zipkin_go.Strconv.{parse_uint}
use zipkin_go.Model.TraceIds.{TraceId, no_trace_id, trace_id_empty, trace_id_string}
use zipkin_go.Model.SpanIds.{SpanId, span_id_string}
use zipkin_go.Model.Spans.{SpanContext, empty_context}

-- The high half of the trace identifier and where the low half starts.
unfoldable pub parse_high : Str → Outcome (ℕ × ℕ)
parse_high h = do
  c ← index h 16
  if c == b'-'
      then ok (0, 0)
      else do s ← slice h 0 16; high ← or_error invalid_trace_id_value (parse_uint s); ok (high, 16)

-- What follows the span identifier: the parent and the sampling text.
unfoldable pub parse_state : Str → ℕ → Outcome (Option SpanId × Str)
parse_state h pos =
    if ltb (pos + 16 + 1 + 16) (length h)
    then (if length h == pos + 16 + 1 + 16 + 1
        then err invalid_sampled_byte
        else if length h == pos + 16 + 1 + 16 + 1 + 1
        then (do c ← index h (pos + 16 + 1 + 16 + 1); ok (none, rune_str c))
        else if length h == pos + 16 + 1 + 16 + 1 + 16
        then err invalid_scope_parent_single
        else if length h == pos + 16 + 1 + 16 + 1 + 1 + 1 + 16
        then (do
          c ← index h (pos + 16 + 1 + 16 + 1)
          s ← slice h (pos + 16 + 1 + 16 + 1 + 1 + 1) (length h)
          parent_id ← or_error invalid_parent_span_id_value (parse_uint s)
          ok (some parent_id, rune_str c))
        else err invalid_parent_span_id_value)
    else ok (none, [])

-- The branch for a header of 33 bytes or more.
unfoldable pub parse_wide : Str → Outcome (SpanContext × Str)
parse_wide h = do
  (high, pos) ← parse_high h
  s ← slice h pos (pos + 16)
  low ← or_error invalid_trace_id_value (parse_uint s)
  s ← slice h (pos + 16 + 1) (pos + 16 + 1 + 16)
  raw_id ← or_error invalid_span_id_value (parse_uint s)
  (parent_id, sampling) ← parse_state h pos
  ok (
    record empty_context {
      trace_id = record { high = high; low = low };
      id = raw_id;
      parent_id = parent_id;
    },
    sampling,
  )

-- The switch on the sampling text.
unfoldable pub set_sampling : SpanContext → Str → Outcome SpanContext
set_sampling sc sampling =
    if str_eq sampling (codes "d")
    then ok (record sc { debug = true })
    else if str_eq sampling (codes "1")
    then ok (record sc { sampled = some true })
    else if str_eq sampling (codes "0")
    then ok (record sc { sampled = some false })
    else if str_eq sampling []
    then ok sc
    else err invalid_sampled_byte

unfoldable pub parse_parts : Str → Outcome (SpanContext × Str)
parse_parts h =
    if length h == 1
    then ok (empty_context, h)
    else if length h == 16 || length h == 32
    then err invalid_scope
    else if leb (16 + 16 + 1) (length h)
    then parse_wide h
    else err invalid_trace_id_value

unfoldable pub parse_single_header : Str → Outcome SpanContext
parse_single_header h =
    if str_eq h []
    then err empty_context_error
    else do (sc, sampling) ← parse_parts h; set_sampling sc sampling

abbrev pub id_parts : SpanContext → List Str
id_parts sc =
    if not (trace_id_empty sc.trace_id) && ltb 0 sc.id
    then trace_id_string sc.trace_id ∷ span_id_string sc.id ∷ []
    else []

abbrev pub sampling_parts : Bool → Option Bool → List Str
sampling_parts true sampled = codes "d" ∷ []
sampling_parts false (some true) = codes "1" ∷ []
sampling_parts false (some false) = codes "0" ∷ []
sampling_parts false none = []

abbrev pub parent_parts : Option SpanId → List Str
parent_parts none = []
parent_parts (some p) = span_id_string p ∷ []

unfoldable pub build_single_header : SpanContext → Str
build_single_header sc =
    join (id_parts sc ++ (sampling_parts sc.debug sc.sampled ++ parent_parts sc.parent_id))
      (codes "-")
