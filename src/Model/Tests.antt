-- ===== src/Model/Tests.antt =====
-- Identifiers and baggage at which the theorems on package `model` are applied.
use zipkin_go.Base.{
  ℕ, ◌<◌, ◌^◌, ◌≡◌, ◌++◌, refl, arith, Bool, true, false, Option, none, some, List, [], ◌∷◌, Str,
  codes, Dict, Outcome, ok, ◌&&◌, if◌then◌else◌, str_eq, to_lower,
}
use zipkin_go.Model.TraceIds.{TraceId}
use zipkin_go.Model.Baggage.{Baggage, new_handler, new_fields}
use zipkin_go.Model.Baggage.AllowList.{
  Operation, add_op, set_op, delete_op, run_ops, IsAllowed, run_ops-new_fields,
}

abbrev wide : TraceId
wide = record { high = 9; low = 10 }

abbrev handler : Baggage
handler = record { registry = (codes "user", tt) ∷ []; fields = none }

makes_handler : new_handler (codes "User" ∷ []) ≡ handler
unfolding new_handler zipkin_go.Base.insert to_lower
makes_handler = refl

abbrev calls : List Operation
calls =
    add_op (codes "USER") (codes "a" ∷ [])
    ∷ set_op (codes "other") (codes "b" ∷ [])
    ∷ delete_op (codes "user")
    ∷ []

run_ops-new_fields_example :
    (b' : Baggage) × (run_ops calls (new_fields handler) ≡ ok b')
    × IsAllowed b'
    × (b'.registry ≡ handler.registry)
run_ops-new_fields_example = run_ops-new_fields calls handler
