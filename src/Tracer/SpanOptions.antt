-- ===== src/Tracer/SpanOptions.antt =====
-- span_options.go. `error_text` is the method `Error` of the extraction error, which is a value of an
-- interface that any package may implement.
use zipkin_go.Base.{
  Bool, Option, none, some, List, [], ◌∷◌, Str, Dict, codes, insert, insert_all, eqb_ℤ, Error,
  Outcome, ok, panic, raised, invalid_extract_failure_policy, ◌>>=◌, if◌then◌else◌,
}
use zipkin_go.Model.Spans.{SpanContext, Endpoint, Kind, Time}
use zipkin_go.Tracer.State.{Tracer, SpanImpl, policy_restart, policy_error, policy_tag_and_restart}
use zipkin_go.Tracer.SpanCalls.{with_model}

abbrev pub SpanOption : Type 0 → Type 0
SpanOption W = Tracer W → SpanImpl → Outcome SpanImpl

abbrev pub set_tags : Dict Str → SpanImpl → SpanImpl
set_tags tags s = with_model s (record s.model { tags = tags })

module _ {W : Type 0} where
  unfoldable pub kind_option : Kind → SpanOption W
  kind_option kind t s = ok (with_model s (record s.model { kind = kind }))

  unfoldable pub start_time : Time → SpanOption W
  start_time start t s = ok (with_model s (record s.model { timestamp = start }))

  unfoldable pub remote_endpoint_option : Option Endpoint → SpanOption W
  remote_endpoint_option e t s = ok (with_model s (record s.model { remote_endpoint = e }))

  unfoldable pub tags_option : Dict Str → SpanOption W
  tags_option tags t s = ok (set_tags (insert_all tags s.tags) s)

  unfoldable pub flush_on_finish_option : Bool → SpanOption W
  flush_on_finish_option b t s = ok (record s { flush_on_finish = b })

  -- The switch on the policy, for a parent that could not be extracted.
  unfoldable pub on_extract_failure : (Error → Str) → Error → SpanOption W
  on_extract_failure error_text e t s =
      if eqb_ℤ t.extract_failure_policy policy_restart
      then ok s
      else if eqb_ℤ t.extract_failure_policy policy_error
      then panic (raised s.err)
      else if eqb_ℤ t.extract_failure_policy policy_tag_and_restart
      then ok (set_tags (insert (codes "error.extract") (error_text e) s.tags) s)
      else panic (raised (some invalid_extract_failure_policy))

  unfoldable pub parent : (Error → Str) → SpanContext → SpanOption W
  unfolding on_extract_failure
  parent error_text sc t s = elim sc.err [
    | none ↦ ok (with_model s (record s.model { context = sc }))
    | some e ↦ on_extract_failure error_text e t s
  ]

  unfoldable pub run_options : List (SpanOption W) → SpanOption W
  run_options [] t s = ok s
  run_options (o ∷ os) t s = do s' ← o t s; run_options os t s'
