-- ===== src/B3/Single/RoundTrip.antt =====
-- What `BuildSingleHeader` writes, `ParseSingleHeader` reads.
use zipkin_go.Base.{
  ℕ, ◌+◌, ◌^◌, ◌<◌, ◌≤◌, ◌≡◌, refl, Bool, true, false, Option, none, some, [], ◌∷◌, ◌++◌,
  append_assoc, append-nil, arith, is_some, ◌==◌, if◌then◌else◌, Bool-cases, ==_iff, ◌⊎◌, inl, inr,
  Str, codes, length, length-append, ok, err, ◌>>=◌, rune_str, lt→ltb, separated, join-separated,
  invalid_scope_parent_single,
}
use zipkin_go.Strconv.{hex_pad}
use zipkin_go.Strconv.RoundTrip.{length-hex_pad}
use zipkin_go.Model.TraceIds.{
  TraceId, IsTraceId, trace_id_empty, trace_id_string, length-trace_id_string,
}
use zipkin_go.Model.SpanIds.{SpanId, span_id_string}
use zipkin_go.Model.Spans.{SpanContext}
use zipkin_go.B3.Wire.{IsWire, IsDecided, wire_context}
use zipkin_go.B3.Single.{
  parse_state, parse_wide, parse_parts, parse_single_header, build_single_header, set_sampling,
  sampling_parts, parent_parts,
}
use zipkin_go.B3.Single.Shape.{with_ids, parse_wide_short, parse_wide_long}
use zipkin_go.B3.Single.State.{
  parse_state_nil, parse_state_sampling, parse_state_parent, parse_state_bare_parent,
}

abbrev state_text : Bool → Option Bool → Option SpanId → Str
state_text d sa p = separated (codes "-") (sampling_parts d sa ++ parent_parts p)

abbrev sampling_text : Bool → Option Bool → Str
sampling_text true sa = codes "d"
sampling_text false (some true) = codes "1"
sampling_text false (some false) = codes "0"
sampling_text false none = []

module _ (ids : Str) (pos : ℕ) (n : length ids ≡ pos + 16 + 1 + 16) where
  state_with_parent :
      (d : Bool) (sa : Option Bool) (p : SpanId)
      → p < 2 ^ 64
      → (d ≡ true) ⊎ (is_some sa ≡ true)
      → parse_state (ids ++ state_text d sa (some p)) pos ≡ ok (some p, sampling_text d sa)
  unfolding span_id_string rune_str
  state_with_parent true sa p b h = rw append-nil (parse_state_parent ids pos n b'd' p b)
  state_with_parent false (some true) p b h = rw append-nil (parse_state_parent ids pos n b'1' p b)
  state_with_parent false (some false) p b h = rw append-nil (parse_state_parent ids pos n b'0' p b)
  state_with_parent false none p b h = ground arith

  state_without_parent :
      (d : Bool) (sa : Option Bool)
      → parse_state (ids ++ state_text d sa none) pos ≡ ok (none, sampling_text d sa)
  unfolding rune_str
  state_without_parent true sa = parse_state_sampling ids pos n b'd'
  state_without_parent false (some true) = parse_state_sampling ids pos n b'1'
  state_without_parent false (some false) = parse_state_sampling ids pos n b'0'
  state_without_parent false none = parse_state_nil ids pos n

  state_back :
      (d : Bool) (sa : Option Bool) (p : Option SpanId)
      → ((q : SpanId) → p ≡ some q → q < 2 ^ 64)
      → (p ≡ none) ⊎ ((d ≡ true) ⊎ (is_some sa ≡ true))
      → parse_state (ids ++ state_text d sa p) pos ≡ ok (p, sampling_text d sa)
  state_back d sa none b h = state_without_parent d sa
  state_back d sa (some p) b (inl e) = cc
  state_back d sa (some p) b (inr h) = state_with_parent d sa p (b p refl) h

parse_single_wide :
    (h : Str)
    → 33 ≤ length h
    → parse_single_header h ≡ (do (sc, s) ← parse_wide h; set_sampling sc s)
unfolding parse_single_header parse_parts
parse_single_wide [] k = absurd (omega arith)
parse_single_wide (c ∷ h) k = ground arith

set_sampling_text :
    (d : Bool) (sa : Option Bool) (sc : SpanContext)
    → sc.debug ≡ false
    → sc.sampled ≡ none
    → set_sampling sc (sampling_text d sa)
      ≡ ok (record sc { debug = d; sampled = if d then none else sa })
unfolding set_sampling
set_sampling_text true sa sc e f = ground arith
set_sampling_text false (some true) sc e f = ground arith
set_sampling_text false (some false) sc e f = ground arith
set_sampling_text false none sc e f = ground arith

build_with_ids :
    (sc : SpanContext)
    → trace_id_empty sc.trace_id ≡ false
    → 0 < sc.id
    → build_single_header sc
      ≡ trace_id_string sc.trace_id
        ++ b'-' ∷ (span_id_string sc.id ++ state_text sc.debug sc.sampled sc.parent_id)
unfolding build_single_header
build_with_ids sc e h = rw (e, lt→ltb 0 sc.id h) (join-separated _ _ _)

-- Where the printed identifiers end, for both widths of the trace identifier.
wide_shape :
    (t : TraceId) (s : SpanId)
    → IsTraceId t
    → s < 2 ^ 64
    → (pos : ℕ) × (ids : Str) × (length ids ≡ pos + 16 + 1 + 16)
      × ((rest : Str)
          → parse_wide (trace_id_string t ++ b'-' ∷ (span_id_string s ++ rest))
            ≡ with_ids t.high t.low s (parse_state (ids ++ rest) pos))
unfolding trace_id_string span_id_string
wide_shape t s v b = elim (Bool-cases (t.high == 0)) [
  | inl e ↦ (
    0,
    hex_pad 16 t.low ++ b'-' ∷ hex_pad 16 s,
    omega (
      arith,
      length-append (hex_pad 16 t.low) (b'-' ∷ hex_pad 16 s),
      length-hex_pad 16 t.low,
      length-hex_pad 16 s,
    ),
    λ rest.
        rw (e, append_assoc, (==_iff t.high 0).0 e) (parse_wide_short t.low s v.low_bound b rest),
  )
  | inr e ↦ (
    16,
    hex_pad 16 t.high ++ (hex_pad 16 t.low ++ b'-' ∷ hex_pad 16 s),
    omega (
      arith,
      length-append (hex_pad 16 t.high) (hex_pad 16 t.low ++ b'-' ∷ hex_pad 16 s),
      length-append (hex_pad 16 t.low) (b'-' ∷ hex_pad 16 s),
      length-hex_pad 16 t.high,
      length-hex_pad 16 t.low,
      length-hex_pad 16 s,
    ),
    λ rest.
        rw e (simp append_assoc (parse_wide_long t.high t.low s v.high_bound v.low_bound b rest)),
  )
]

wide_length :
    (t : TraceId) (s : SpanId) (rest : Str)
    → 33 ≤ length (trace_id_string t ++ b'-' ∷ (span_id_string s ++ rest))
unfolding span_id_string
wide_length t s rest = ground (
  arith,
  length-append (trace_id_string t) (b'-' ∷ (hex_pad 16 s ++ rest)),
  length-append (hex_pad 16 s) rest,
  length-trace_id_string t,
  length-hex_pad 16 s,
)

-- `ParseSingleHeader` reads what `BuildSingleHeader` wrote for a context whose identifiers are
-- 64-bit numbers, that has a trace and a span identifier, and that has a sampling decision or a
-- debug flag wherever it has a parent: it gets the context back, but for the error, the baggage and
-- a sampling decision beside the debug flag, which no header carries.
pub parse_single_header-build_single_header :
    (sc : SpanContext)
    → IsWire sc
    → (sc.parent_id ≡ none) ⊎ IsDecided sc
    → parse_single_header (build_single_header sc) ≡ ok (wire_context sc)
parse_single_header-build_single_header sc v h =
    let (pos, ids, n, shape) = wide_shape sc.trace_id sc.id v.trace_bound v.span_bound in
    rw
      (
        build_with_ids sc v.has_trace v.has_span,
        parse_single_wide _ (wide_length sc.trace_id sc.id _),
        shape,
        state_back ids pos n sc.debug sc.sampled sc.parent_id v.parent_bound h,
      )
      (set_sampling_text sc.debug sc.sampled _ refl refl)

-- A context with both identifiers and a parent, and with no debug flag and no sampling decision, is
-- written as a header that `ParseSingleHeader` always refuses.
pub undecided_parent_refused :
    (sc : SpanContext) (p : SpanId)
    → IsWire sc
    → sc.parent_id ≡ some p
    → sc.debug ≡ false
    → sc.sampled ≡ none
    → parse_single_header (build_single_header sc) ≡ err invalid_scope_parent_single
unfolding span_id_string
undecided_parent_refused sc p v e d sa =
    let (pos, ids, n, shape) = wide_shape sc.trace_id sc.id v.trace_bound v.span_bound in
    rw (
      build_with_ids sc v.has_trace v.has_span,
      parse_single_wide _ (wide_length sc.trace_id sc.id _),
      shape,
      e,
      d,
      sa,
      append-nil,
      parse_state_bare_parent ids pos n p,
    )
