-- ===== src/B3/Carriers.antt =====
-- propagation/b3/map.go, http.go and grpc.go: extraction from and injection into a carrier. The three
-- files repeat one body for each kind of carrier: here it is written once, over what a carrier offers,
-- and each kind is an instance.
pub mod Kinds
pub mod RoundTrip
pub mod Errors
use zipkin_go.Base.{
  ℕ, Bool, true, false, ◌&&◌, not, Option, none, some, List, [], ◌∷◌, Str, codes, str_eq, ltb, ◌==◌,
  is_some, if◌then◌else◌, Outcome, ok, err, panic, ◌>>=◌, Error, empty_context_error, ◌≡◌,
}
use zipkin_go.Model.TraceIds.{TraceId, trace_id_empty, trace_id_string}
use zipkin_go.Model.SpanIds.{SpanId, span_id_string}
use zipkin_go.Model.Spans.{SpanContext}
use zipkin_go.B3.Headers.{
  Key, trace_id, span_id, parent_span_id, sampled, flags, context, key_text, parse_headers,
}
use zipkin_go.B3.Single.{parse_single_header, build_single_header}

-- What a carrier offers: its value at each of the six keys, and a write that changes that key alone.
pub record Carrier (C : Type 0) : Type 0 where
  pub get : C → Key → Str
  pub set : C → Key → Str → C
  pub get_set :
      (c : C) (k j : Key) (v : Str)
      → get (set c k v) j ≡ (if str_eq (key_text k) (key_text j) then v else get c j)

pub record InjectOptions : Type 0 where
  pub should_inject_single_header : Bool
  pub should_inject_multi_header : Bool

abbrev pub InjectOption : Type 0
InjectOption = InjectOptions → InjectOptions

abbrev pub with_single_and_multi_header : InjectOption
with_single_and_multi_header opts = record {
  should_inject_single_header = true;
  should_inject_multi_header = true;
}

abbrev pub with_single_header_only : InjectOption
with_single_header_only opts = record {
  should_inject_single_header = true;
  should_inject_multi_header = false;
}

abbrev pub apply_options : InjectOptions → List InjectOption → InjectOptions
apply_options o [] = o
apply_options o (opt ∷ opts) = apply_options (opt o) opts

abbrev pub inject_options : List InjectOption → InjectOptions
inject_options =
    apply_options
      (record { should_inject_single_header = false; should_inject_multi_header = true })

-- The comparison with the zero value of the context.
unfoldable pub is_zero_context : SpanContext → Bool
is_zero_context sc =
    trace_id_empty sc.trace_id
    && (sc.id == 0
        && (not (is_some sc.parent_id)
            && (not sc.debug
                && (not (is_some sc.sampled)
                    && (not (is_some sc.err) && not (is_some sc.baggage))))))

-- The error of the single header is returned only where the other headers fail too.
unfoldable pub extract_multi : Option Error → Outcome SpanContext → Outcome SpanContext
extract_multi (some s_err) (err m_err) = err s_err
extract_multi _ m = m

unfoldable pub extract_single : Outcome SpanContext → Outcome SpanContext → Outcome SpanContext
unfolding extract_multi
extract_single (ok sc) multi = ok sc
extract_single (err s_err) multi = extract_multi (some s_err) multi
extract_single (panic p) multi = panic p

module _ {C : Type 0} (carrier : Carrier C) where
  open carrier use {get, set}

  unfoldable pub extract_headers : C → Outcome SpanContext
  extract_headers c =
      parse_headers (get c trace_id) (get c span_id) (get c parent_span_id) (get c sampled)
        (get c flags)

  unfoldable pub extract : C → Outcome SpanContext
  unfolding extract_single extract_multi
  extract c =
      if str_eq (get c context) []
      then extract_multi none (extract_headers c)
      else extract_single (parse_single_header (get c context)) (extract_headers c)

  unfoldable pub inject_state : Bool → Option Bool → C → C
  inject_state true decision c = set c flags (codes "1")
  inject_state false (some true) c = set c sampled (codes "1")
  inject_state false (some false) c = set c sampled (codes "0")
  inject_state false none c = c

  unfoldable pub inject_parent : Option SpanId → C → C
  inject_parent none c = c
  inject_parent (some p) c = set c parent_span_id (span_id_string p)

  unfoldable pub inject_ids : SpanContext → C → C
  unfolding inject_parent
  inject_ids sc c =
      if not (trace_id_empty sc.trace_id) && ltb 0 sc.id
      then inject_parent sc.parent_id
          (set (set c trace_id (trace_id_string sc.trace_id)) span_id (span_id_string sc.id))
      else c

  unfoldable pub inject_multi : SpanContext → C → C
  unfolding inject_state inject_ids
  inject_multi sc c = inject_ids sc (inject_state sc.debug sc.sampled c)

  unfoldable pub inject : InjectOptions → SpanContext → C → Outcome C
  inject options sc c =
      if is_zero_context sc
      then err empty_context_error
      else (let c' = if options.should_inject_multi_header then inject_multi sc c else c in
          ok (
            if options.should_inject_single_header
            then set c' context (build_single_header sc)
            else c'))
