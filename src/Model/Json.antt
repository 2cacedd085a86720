-- ===== src/Model/Json.antt =====
-- The JSON form of a span in model/span.go, model/endpoint.go and model/annotation.go. A document is the
-- fields of a JSON object in their order, as `encoding/json` writes and reads them: the text of it,
-- values of other types than these, nulls, and keys in another case are left to that package. The
-- address of an endpoint stands for its text by the 16 bytes that `net.ParseIP` reads from it, and an
-- empty text by no bytes.
pub mod Encode
pub mod Decode
pub mod RoundTrip
pub mod Checks
pub mod Schema
mod Tests
use zipkin_go.Base.{ℕ, Bool, Option, List, Str, Dict, ℤ}

pub record JsonEndpoint : Type 0 where
  pub service_name : Option Str
  pub ipv4 : Option (List ℕ)
  pub ipv6 : Option (List ℕ)
  pub port : Option ℤ

pub record JsonAnnotation : Type 0 where
  pub timestamp : Option ℤ
  pub value : Option Str

-- Identifiers are the JSON strings with their quotes, which their own methods read. `other_field` is a
-- field of another key.
pub data JsonField : Type 0 where
  timestamp_field duration_field : ℤ → JsonField
  trace_id_field id_field parent_id_field : Str → JsonField
  debug_field shared_field : Bool → JsonField
  name_field kind_field : Str → JsonField
  local_endpoint_field remote_endpoint_field : JsonEndpoint → JsonField
  annotations_field : List JsonAnnotation → JsonField
  tags_field : Dict Str → JsonField
  other_field : JsonField
