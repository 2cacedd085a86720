-- ===== src/Tracer/TracerOptions.antt =====
-- tracer_options.go, and `NewTracer`, `SetNoop`, `LocalEndpoint` and `Extract` of tracer.go.
use zipkin_go.Base.{
  ℕ, Bool, true, false, ◌||◌, Option, none, some, List, [], ◌∷◌, Str, Dict, insert_all, ℤ, pos,
  ltb_ℤ, ◌==◌, if◌then◌else◌, Outcome, ok, err, panic, invalid_extract_failure_policy, ◌>>=◌,
}
use zipkin_go.IdGenerator.{IdGenerator, Source, new_random_64, new_random_128}
use zipkin_go.Model.Spans.{SpanContext, Endpoint, empty_context}
use zipkin_go.Tracer.State.{Tracer, compare_and_swap, policy_restart, policy_tag_and_restart}

abbrev pub TracerOption : Type 0 → Type 0
TracerOption W = Tracer W → Outcome (Tracer W)

module _ {W : Type 0} where
  unfoldable pub with_local_endpoint : Option Endpoint → TracerOption W
  with_local_endpoint e t = ok (record t { local_endpoint = e })

  unfoldable pub with_extract_failure_policy : ℤ → TracerOption W
  with_extract_failure_policy p t =
      if ltb_ℤ p (pos 0) || ltb_ℤ policy_tag_and_restart p
      then err invalid_extract_failure_policy
      else ok (record t { extract_failure_policy = p })

  unfoldable pub with_noop_span : Bool → TracerOption W
  with_noop_span unsampled t = ok (record t { unsampled_noop = unsampled })

  unfoldable pub with_shared_spans : Bool → TracerOption W
  with_shared_spans val t = ok (record t { shared_spans = val })

  unfoldable pub with_sampler : (ℕ → W → Bool × W) → TracerOption W
  with_sampler sampler t = ok (record t { sampler = sampler })

  unfoldable pub with_trace_id_128_bit : Source W → Bool → TracerOption W
  with_trace_id_128_bit source val t =
      ok (record t { generate = if val then new_random_128 source else new_random_64 source })

  unfoldable pub with_id_generator : IdGenerator W → TracerOption W
  with_id_generator generator t = ok (record t { generate = generator })

  unfoldable pub with_tags : Dict Str → TracerOption W
  with_tags tags t = ok (record t { default_tags = insert_all tags t.default_tags })

  unfoldable pub with_noop_tracer : Bool → TracerOption W
  with_noop_tracer on t = ok (record t { noop = if on then 1 else 0 })

  unfoldable pub run_tracer_options : List (TracerOption W) → TracerOption W
  run_tracer_options [] t = ok t
  run_tracer_options (o ∷ os) t = do t' ← o t; run_tracer_options os t'

  -- The reporter itself is not part of the state: what a span sends is returned by its calls. Without
  -- one the tracer starts as a noop.
  unfoldable pub new_tracer : Source W → Bool → List (TracerOption W) → Outcome (Tracer W)
  unfolding run_tracer_options
  new_tracer source has_reporter opts = run_tracer_options opts (record {
    default_tags = [];
    extract_failure_policy = policy_restart;
    sampler = λ id w. (true, w);
    generate = new_random_64 source;
    local_endpoint = none;
    noop = if has_reporter then 0 else 1;
    shared_spans = true;
    unsampled_noop = false;
  })

  unfoldable pub set_noop : Bool → Tracer W → Tracer W
  set_noop true t = record t { noop = (compare_and_swap t.noop 0 1).0 }
  set_noop false t = record t { noop = (compare_and_swap t.noop 1 0).0 }

  -- The result of an extractor is stored with its error; a noop tracer does not call it. What a
  -- panic of the extractor does to the caller is the caller's.
  unfoldable pub extract_context : Tracer W → Outcome SpanContext → Outcome SpanContext
  extract_context t extracted = if t.noop == 1 then ok empty_context else elim extracted [
    | ok sc ↦ ok (record sc { err = none })
    | err e ↦ ok (record empty_context { err = some e })
    | panic p ↦ panic p
  ]
