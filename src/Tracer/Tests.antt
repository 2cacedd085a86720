-- ===== src/Tracer/Tests.antt =====
-- A tracer and spans at which the theorems on the root package are applied. The state of its closures
-- is a counter that makes the identifiers.
use zipkin_go.Base.{
  ◌%◌, inl, inr, ℕ, ◌+◌, ◌≡◌, refl, arith, true, false, ◌&&◌, not, none, some, List, [], ◌∷◌, Str,
  codes, pos, length, if◌then◌else◌, Error, invalid_scope, ok, panic, raised,
}
use zipkin_go.IdGenerator.{IdGenerator, Source, new_random_128}
use zipkin_go.Model.Spans.{SpanContext, empty_context, server}
use zipkin_go.Tracer.State.{
  Tracer, SpanImpl, Span, recording, blank_span, span_context, is_noop, policy_restart,
  policy_error,
}
use zipkin_go.Tracer.SpanCalls.{
  SpanCall, tag_call, finish_call, finished_with_duration_call, flush_call, is_sampled, run_calls,
}
use zipkin_go.Tracer.SpanOptions.{SpanOption, kind_option, parent}
use zipkin_go.Tracer.Start.{new_span, start_span, start_span_from_context}
use zipkin_go.Tracer.Lineage.{IsChild, start_span_from_context-IsChild}
use zipkin_go.Tracer.Lineage.Generated.{AreRootIds, start_span-AreRootIds}
use zipkin_go.Tracer.Lineage.Roots.{start_span-error_policy}
use zipkin_go.Tracer.Sampling.{IsCollected, start_span-IsCollected}
use zipkin_go.Tracer.Reports.{is_finish, is_flush, any_call, count_calls, run_calls-reports}

abbrev ids : IdGenerator ℕ
ids = record {
  span_id = λ t w. (w + 1, w + 1);
  trace_id = λ w. (record { high = 0; low = w + 1 }, w + 1);
}

abbrev tracer : Tracer ℕ
tracer = record {
  default_tags = [];
  extract_failure_policy = policy_restart;
  sampler = λ id w. (true, w);
  generate = ids;
  local_endpoint = none;
  noop = 0;
  shared_spans = true;
  unsampled_noop = false;
}

abbrev failing : Tracer ℕ
failing = record tracer { extract_failure_policy = policy_error }

abbrev sent : SpanContext
sent = record empty_context { trace_id = record { high = 0; low = 5 }; id = 6; sampled = some true }

abbrev broken : SpanContext
broken = record empty_context { err = some invalid_scope }

abbrev no_text : Error → Str
no_text e = []

abbrev fresh : SpanImpl
fresh = new_span tracer (codes "get")

fresh-empty : fresh.must_collect ≡ 0
unfolding new_span
fresh-empty = refl

abbrev sampled_span : SpanImpl
sampled_span = record {
  model = record blank_span.model { context = sent };
  must_collect = 1;
  flush_on_finish = true;
}

start_span_from_context-IsChild_example :
    (sp : Span) × (w' : ℕ) × (start_span_from_context no_text tracer
        (pos 100)
        (some (recording sampled_span))
        (codes "get")
        []
        40
      ≡ ok (sp, some sp, w'))
    × IsChild tracer (pos 100) sent (span_context sp) 40
unfolding zipkin_go.Tracer.SpanOptions.run_options span_context
    zipkin_go.Model.TraceIds.trace_id_empty new_span
start_span_from_context-IsChild_example =
    start_span_from_context-IsChild tracer (pos 100) no_text (recording sampled_span) (codes "get")
      [] 40 fresh (omega arith) refl refl refl refl

-- A source that counts.
abbrev counter : Source ℕ
counter = record {
  int63 = λ w. (w % 1000, w + 1);
  int31 = λ w. (w % 1000, w + 1);
  unix = λ w. w;
  int63_bound = λ w. omega arith;
  int31_bound = λ w. omega arith;
}

abbrev random_tracer : Tracer ℕ
random_tracer = record tracer { generate = new_random_128 counter }

start_span-AreRootIds_example :
    (sp : Span) × (w' : ℕ) × (start_span random_tracer (pos 100) (codes "get") [] 40 ≡ ok (sp, w'))
    × AreRootIds counter (span_context sp).trace_id (span_context sp).id
    × ((span_context sp).parent_id ≡ none)
unfolding zipkin_go.Tracer.SpanOptions.run_options zipkin_go.Model.TraceIds.trace_id_empty new_span
start_span-AreRootIds_example =
    start_span-AreRootIds counter random_tracer (pos 100) (codes "get") [] 40 fresh (omega arith)
      (inr (inl refl)) refl refl

start_span-error_policy_example :
    start_span failing (pos 100) (codes "get") (kind_option server ∷ parent no_text broken ∷ []) 40
    ≡ panic (raised none)
start_span-error_policy_example =
    start_span-error_policy failing (pos 100) no_text server broken invalid_scope (codes "get") 40
      refl refl

start_span-IsCollected_example :
    (sp : Span) × (w' : ℕ) × (start_span tracer (pos 100) (codes "get") [] 40 ≡ ok (sp, w'))
    × IsCollected sp
    × (is_noop sp ≡ (false && not (is_sampled (span_context sp))))
unfolding zipkin_go.Tracer.SpanOptions.run_options
start_span-IsCollected_example =
    start_span-IsCollected tracer (pos 100) (codes "get") [] 40 fresh (omega arith) refl fresh-empty

abbrev calls : List SpanCall
calls =
    tag_call (codes "error") (codes "first")
    ∷ tag_call (codes "error") (codes "second")
    ∷ finish_call (pos 200)
    ∷ finished_with_duration_call (pos 5)
    ∷ flush_call
    ∷ []

run_calls-reports_example :
    length (run_calls calls (recording sampled_span)).1
    ≡ (if is_sampled sent && true && any_call is_finish calls then 1 else 0)
      + (if is_sampled sent then count_calls is_flush calls else 0)
run_calls-reports_example = run_calls-reports calls sampled_span refl
