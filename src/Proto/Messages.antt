-- ===== src/Proto/Messages.antt =====
-- proto/zipkin_proto3/zipkin.pb.go: the messages, as Go structs. The bookkeeping of the protobuf runtime
-- in them is left out. An enum is any `int32`.
use zipkin_go.Base.{ℕ, Bool, Option, List, Str, Dict, codes, str_eq, if◌then◌else◌, ℤ, pos, eqb_ℤ}

pub record ProtoEndpoint : Type 0 where
  pub service_name : Str
  pub ipv4 : List ℕ
  pub ipv6 : List ℕ
  pub port : ℤ

pub record ProtoAnnotation : Type 0 where
  pub timestamp : ℕ
  pub value : Str

pub record ProtoSpan : Type 0 where
  pub trace_id : List ℕ
  pub parent_id : List ℕ
  pub id : List ℕ
  pub kind : ℤ
  pub name : Str
  pub timestamp : ℕ
  pub duration : ℕ
  pub local_endpoint : Option ProtoEndpoint
  pub remote_endpoint : Option ProtoEndpoint
  pub annotations : List (Option ProtoAnnotation)
  pub tags : Dict Str
  pub debug : Bool
  pub shared : Bool

-- `Span_Kind_value[s]`: a missing key reads as 0.
unfoldable pub kind_value : Str → ℤ
kind_value s =
    if str_eq s (codes "CLIENT")
    then pos 1
    else if str_eq s (codes "SERVER")
    then pos 2
    else if str_eq s (codes "PRODUCER")
    then pos 3
    else if str_eq s (codes "CONSUMER")
    then pos 4
    else pos 0

-- The method `String`: the runtime writes the number where it has no name.
unfoldable pub kind_name : (ℤ → Str) → ℤ → Str
kind_name number_text k =
    if eqb_ℤ k (pos 0)
    then codes "SPAN_KIND_UNSPECIFIED"
    else if eqb_ℤ k (pos 1)
    then codes "CLIENT"
    else if eqb_ℤ k (pos 2)
    then codes "SERVER"
    else if eqb_ℤ k (pos 3)
    then codes "PRODUCER"
    else if eqb_ℤ k (pos 4)
    then codes "CONSUMER"
    else number_text k
