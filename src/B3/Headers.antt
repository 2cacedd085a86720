-- ===== src/B3/Headers.antt =====
-- propagation/b3/spancontext.go, `ParseHeaders`, and the keys of propagation/b3/shared.go.
-- The proofs are in the modules below.
pub mod Laws
use zipkin_go.Base.{
  ℕ, ◌+◌, Bool, true, false, ◌&&◌, not, Option, none, some, [], ◌∷◌, Str, codes, str_eq, to_lower,
  ltb, ◌==◌, if◌then◌else◌, Outcome, ok, err, panic, ◌>>=◌, or_error, Error, invalid_sampled_header,
  invalid_trace_id_header, invalid_span_id_header, invalid_parent_span_id_header, invalid_scope,
  invalid_scope_parent,
}
use zipkin_go.Strconv.{parse_uint}
use zipkin_go.Model.TraceIds.{trace_id_from_hex, no_trace_id, TraceId}
use zipkin_go.Model.SpanIds.{SpanId}
use zipkin_go.Model.Spans.{SpanContext, empty_context}

-- The header keys.
pub data Key : Type 0 where
  trace_id span_id parent_span_id sampled flags context : Key

abbrev pub key_text : Key → Str
key_text trace_id = codes "x-b3-traceid"
key_text span_id = codes "x-b3-spanid"
key_text parent_span_id = codes "x-b3-parentspanid"
key_text sampled = codes "x-b3-sampled"
key_text flags = codes "x-b3-flags"
key_text context = codes "b3"

-- The switch on the sampled header.
unfoldable pub parse_sampled : Str → Outcome (Option Bool)
parse_sampled h =
    let s = to_lower h in
    if str_eq s (codes "0")
    then ok (some false)
    else if str_eq s (codes "false")
    then ok (some false)
    else if str_eq s (codes "1")
    then ok (some true)
    else if str_eq s (codes "true")
    then ok (some true)
    else if str_eq s []
    then ok none
    else err invalid_sampled_header

-- An identifier header beside whether it counts among the required ones.
unfoldable pub parse_trace_id_header : Str → Outcome (TraceId × ℕ)
parse_trace_id_header [] = ok (no_trace_id, 0)
parse_trace_id_header (c ∷ h) = do
  t ← or_error invalid_trace_id_header (trace_id_from_hex (c ∷ h))
  ok (t, 1)

unfoldable pub parse_span_id_header : Str → Outcome (SpanId × ℕ)
parse_span_id_header [] = ok (0, 0)
parse_span_id_header (c ∷ h) = do
  i ← or_error invalid_span_id_header (parse_uint (c ∷ h))
  ok (i, 1)

unfoldable pub parse_parent_header : Bool → Str → Outcome (Option SpanId)
parse_parent_header no_ids [] = ok none
parse_parent_header true (c ∷ h) = err invalid_scope_parent
parse_parent_header false (c ∷ h) = do
  i ← or_error invalid_parent_span_id_header (parse_uint (c ∷ h))
  ok (some i)

unfoldable pub parse_headers : Str → Str → Str → Str → Str → Outcome SpanContext
unfolding parse_trace_id_header parse_span_id_header parse_parent_header
parse_headers hdr_trace_id hdr_span_id hdr_parent_span_id hdr_sampled hdr_flags = do
  decision ← parse_sampled hdr_sampled
  let debug = str_eq hdr_flags (codes "1")
  (t, n) ← parse_trace_id_header hdr_trace_id
  (i, m) ← parse_span_id_header hdr_span_id
  let required_count = n + m
  if not (required_count == 0) && not (required_count == 2) then err invalid_scope else do
    p ← parse_parent_header (required_count == 0) hdr_parent_span_id
    ok (record empty_context {
      trace_id = t;
      id = i;
      parent_id = p;
      debug = debug;
      sampled = if debug then none else decision;
    })
