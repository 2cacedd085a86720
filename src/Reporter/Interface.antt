-- ===== src/Reporter/Interface.antt =====
-- reporter/reporter.go and reporter/serializer.go: the interfaces that reporters and serializers
-- implement, and the order in which any reporter must hand spans on.
pub mod Refines
use zipkin_go.Base.{List, [], ◌∷◌, Str, Outcome, ok, ◌>>=◌}

-- The interface `SpanSerializer`.
pub record SpanSerializer (A : Type 0) : Type 0 where
  pub serialize : List A → Outcome Str
  pub content_type : Str

-- The interface `Reporter`, with what the reporter keeps as a state.
pub record SpanReporter (A R : Type 0) : Type 0 where
  pub send : A → R → Outcome R
  pub close : R → Outcome (Unit {0}) × R

unfoldable pub new_noop_reporter : {A : Type 0} → SpanReporter A (Unit {0})
new_noop_reporter = record { send = λ span r. ok r; close = λ r. (ok tt, r) }

-- The calls of `Send` for some spans in their order.
unfoldable pub send_all : {A R : Type 0} → SpanReporter A R → List A → R → Outcome R
send_all i [] r = ok r
send_all i (span ∷ spans) r = i.send span r >>= send_all i spans
