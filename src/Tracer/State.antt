-- ===== src/Tracer/State.antt =====
-- The state of tracer.go, span_implementation.go and noop.go. What the closures of a tracer (its
-- sampler, its identifier generator, the clock) keep between calls is a state `W` that every call
-- hands on.
use zipkin_go.Base.{ℕ, Bool, true, false, Option, none, [], Str, Dict, ℤ, pos, ◌==◌, if◌then◌else◌}
use zipkin_go.IdGenerator.{IdGenerator}
use zipkin_go.Model.Spans.{SpanContext, SpanModel, Endpoint, empty_context, zero_time, undetermined}

-- An atomic compare and swap: the new value and whether it was written.
abbrev pub compare_and_swap : ℕ → ℕ → ℕ → ℕ × Bool
compare_and_swap value old new = if value == old then (new, true) else (value, false)

abbrev pub policy_restart : ℤ
policy_restart = pos 0

abbrev pub policy_error : ℤ
policy_error = pos 1

abbrev pub policy_tag_and_restart : ℤ
policy_tag_and_restart = pos 2

pub record Tracer (W : Type 0) : Type 0 where
  pub default_tags : Dict Str
  pub extract_failure_policy : ℤ
  pub sampler : ℕ → W → Bool × W
  pub generate : IdGenerator W
  pub local_endpoint : Option Endpoint
  pub noop : ℕ
  pub shared_spans : Bool
  pub unsampled_noop : Bool

-- `mustCollect` is an atomic flag, 1 for true.
pub record SpanImpl : Type 0 where
  pub model : SpanModel
  pub open model use *
  pub must_collect : ℕ
  pub flush_on_finish : Bool

pub data Span : Type 0 where
  noop_span : SpanContext → Span
  recording : SpanImpl → Span

-- `IsNoop`.
unfoldable pub is_noop : Span → Bool
is_noop (noop_span sc) = true
is_noop (recording s) = false

-- The method `Context`.
unfoldable pub span_context : Span → SpanContext
span_context (noop_span sc) = sc
span_context (recording s) = s.context

-- The span that a noop tracer fills in, for the context that its options may set.
abbrev pub blank_span : SpanImpl
blank_span = record {
  model = record {
    context = empty_context;
    name = [];
    kind = undetermined;
    timestamp = zero_time;
    duration = pos 0;
    shared = false;
    local_endpoint = none;
    remote_endpoint = none;
    annotations = [];
    tags = [];
  };
  must_collect = 0;
  flush_on_finish = false;
}

-- What a Go context holds under `spanKey`.
abbrev pub Context : Type 0
Context = Option Span
