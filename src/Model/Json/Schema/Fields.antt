-- ===== src/Model/Json/Schema/Fields.antt =====
-- That the fields of `MarshalJSON` have their form, one after the other.
use zipkin_go.Base.{
  ℕ, ◌≡◌, ◌≢◌, refl, arith, inl, inr, Bool, true, false, Bool-cases, Option, none, some, List, [],
  ◌∷◌, Str, Dict, length, if◌then◌else◌, ◌==◌, ℤ, pos, eqb_ℤ, All, All-append, Error, ok, ◌>>=◌,
  bind-eq-ok,
}
use zipkin_go.Model.SpanIds.{SpanId}
use zipkin_go.Model.Spans.{Annotation, Endpoint, endpoint_empty, SpanModel}
use zipkin_go.Model.Json.{
  JsonEndpoint, JsonField, timestamp_field, duration_field, debug_field, shared_field, name_field,
  kind_field, local_endpoint_field, remote_endpoint_field,
}
use zipkin_go.Model.Json.Encode.{
  marshal_timestamp, marshal_duration, marshal_ip, marshal_endpoint, marshal_endpoint_field,
  number_field, text_field, bool_field, marshal_annotations, parent_field, annotation_field,
  tag_field, span_fields, marshal_span, non_empty, non_zero,
}
use zipkin_go.Model.LowerCase.{LowerCase, IsNoUpper, lower_case, lower_case-IsNoUpper}
use zipkin_go.Model.Json.Schema.{
  IfSome, IsSchemaEndpoint, FitsSchema, marshal_span_id-IsQuotedHex, marshal_trace_id-IsQuotedHex,
  non_empty-IsLowerText,
}

non_zero-has_port : (n : ℕ) → IfSome (λ p. p ≢ pos 0) (non_zero n)
non_zero-has_port n = elim (Bool-cases (n == 0)) [
  | inl h ↦ rw h tt
  | inr h ↦ rw h (λ e. ground arith)
]

marshal_ip-length :
    (e : Error) (ip : List ℕ) (o : Option (List ℕ))
    → marshal_ip e ip ≡ ok o
    → IfSome (λ x. length x ≡ 16) o
unfolding marshal_ip
marshal_ip-length e ip none h = tt
marshal_ip-length e ip (some x) h = ground arith

marshal_endpoint-IsSchemaEndpoint :
    (l : LowerCase) (e : Error) (x : Endpoint) (j : JsonEndpoint)
    → marshal_endpoint l e x ≡ ok j
    → IsSchemaEndpoint j
unfolding marshal_endpoint
marshal_endpoint-IsSchemaEndpoint l e x j h =
    let (o4, h4, h') = bind-eq-ok (marshal_ip e x.ipv4) _ h in
    let (o6, h6, done) = bind-eq-ok (marshal_ip e x.ipv6) _ h' in
    let made : JsonEndpoint = record {
      service_name = non_empty (lower_case l x.service_name);
      ipv4 = o4;
      ipv6 = o6;
      port = non_zero x.port;
    } in
    let same : made ≡ j = ground arith in
    rw (← same) (record {
      lower_name =
          non_empty-IsLowerText (lower_case l x.service_name)
            (lower_case-IsNoUpper l x.service_name);
      size_4 = marshal_ip-length e x.ipv4 o4 h4;
      size_6 = marshal_ip-length e x.ipv6 o6 h6;
      has_port = non_zero-has_port x.port;
    })

unless_empty-FitsSchema :
    (l : LowerCase) (e : Error) (field : JsonEndpoint → JsonField)
    → ((j : JsonEndpoint) → IsSchemaEndpoint j → FitsSchema (field j))
    → (x : Endpoint) (fields : List JsonField) (empty : Bool)
    → (if empty then ok [] else (marshal_endpoint l e x >>= λ j. ok (field j ∷ []))) ≡ ok fields
    → All FitsSchema fields
unless_empty-FitsSchema l e field fits x fields true h =
    let same : [] ≡ fields = ground arith in rw (← same) tt
unless_empty-FitsSchema l e field fits x fields false h =
    let (j, hj, done) = bind-eq-ok (marshal_endpoint l e x) _ h in
    let same : field j ∷ [] ≡ fields = ground arith in
    rw (← same) (fits j (marshal_endpoint-IsSchemaEndpoint l e x j hj), tt)

marshal_endpoint_field-FitsSchema :
    (l : LowerCase) (e : Error) (field : JsonEndpoint → JsonField)
    → ((j : JsonEndpoint) → IsSchemaEndpoint j → FitsSchema (field j))
    → (x : Option Endpoint) (fields : List JsonField)
    → marshal_endpoint_field l e field x ≡ ok fields
    → All FitsSchema fields
unfolding marshal_endpoint_field
marshal_endpoint_field-FitsSchema l e field fits none fields h =
    let same : [] ≡ fields = ground arith in rw (← same) tt
marshal_endpoint_field-FitsSchema l e field fits (some x) fields h =
    unless_empty-FitsSchema l e field fits x fields (endpoint_empty (some x)) h

number_field-FitsSchema :
    (field : ℤ → JsonField)
    → ((n : ℤ) → n ≢ pos 0 → FitsSchema (field n))
    → (n : ℤ) → All FitsSchema (number_field field n)
number_field-FitsSchema field fits n = elim (Bool-cases (eqb_ℤ n (pos 0))) [
  | inl h ↦ rw h tt
  | inr h ↦ rw h (fits n (λ e. ground arith), tt)
]

text_field-FitsSchema :
    (field : Str → JsonField) (P : Str → Type 0)
    → ((s : Str) → s ≢ [] → P s → FitsSchema (field s))
    → (s : Str) → P s
    → All FitsSchema (text_field field s)
text_field-FitsSchema field P fits [] h = tt
text_field-FitsSchema field P fits (c ∷ s) h = (fits (c ∷ s) (λ e. cc) h, tt)

bool_field-FitsSchema :
    (field : Bool → JsonField)
    → FitsSchema (field true)
    → (b : Bool) → All FitsSchema (bool_field field b)
bool_field-FitsSchema field fits true = (fits, tt)
bool_field-FitsSchema field fits false = tt

parent_field-FitsSchema : (p : Option SpanId) → All FitsSchema (parent_field p)
parent_field-FitsSchema none = tt
parent_field-FitsSchema (some p) = (marshal_span_id-IsQuotedHex p, tt)

annotation_field-FitsSchema : (xs : List Annotation) → All FitsSchema (annotation_field xs)
unfolding annotation_field marshal_annotations
annotation_field-FitsSchema [] = tt
annotation_field-FitsSchema (x ∷ xs) = ((λ e. cc), tt)

tag_field-FitsSchema : (m : Dict Str) → All FitsSchema (tag_field m)
tag_field-FitsSchema [] = tt
tag_field-FitsSchema ((k, v) ∷ m) = ((λ e. cc), tt)

span_fields-FitsSchema :
    (l : LowerCase) (s : SpanModel) (t d : ℤ) (local remote : List JsonField)
    → All FitsSchema local
    → All FitsSchema remote
    → All FitsSchema (span_fields l s t d local remote)
unfolding span_fields
span_fields-FitsSchema l s t d local remote fits fits' =
    let both = All-append FitsSchema in
    both _ _ (number_field-FitsSchema timestamp_field (λ n h. h) t) (
      both _ _ (number_field-FitsSchema duration_field (λ n h. h) d) (
        marshal_trace_id-IsQuotedHex s.trace_id,
        (
          marshal_span_id-IsQuotedHex s.id,
          (both _ _ (parent_field-FitsSchema s.parent_id) (
              both _ _ (bool_field-FitsSchema debug_field refl s.debug) (
                both _ _
                  (text_field-FitsSchema name_field (All IsNoUpper) (λ x h h'. (h, h'))
                    (lower_case l s.name) (lower_case-IsNoUpper l s.name))
                  (both _ _ (text_field-FitsSchema kind_field (λ _. Unit) (λ x h _. h) s.kind tt) (
                    both _ _ (bool_field-FitsSchema shared_field refl s.shared) (
                      both _ _ fits (
                        both _ _ fits' (
                          both _ _ (annotation_field-FitsSchema s.annotations)
                            (tag_field-FitsSchema s.tags))))))))),
        ),
      ))

-- Where `strings.ToLower` leaves no upper case letter of ASCII, every field that `MarshalJSON` writes for
-- a span, if it succeeds, has the form of its key: identifiers are 16 lower case digits of base 16, or 32
-- for a trace; the names of the span and of its endpoints have no upper case letters of ASCII; addresses
-- have 16 bytes; and the start, the duration, the flags, the names, the kind, the ports of endpoints, the
-- annotations and the tags are left out where they are zero, false or empty.
pub marshal_span-FitsSchema :
    (l : LowerCase) (e : Error) (s : SpanModel) (fields : List JsonField)
    → marshal_span l e s ≡ ok fields
    → All FitsSchema fields
unfolding marshal_span
marshal_span-FitsSchema l e s fields h =
    let (t, ht, h1) = bind-eq-ok (marshal_timestamp s.timestamp) _ h in
    let (d, hd, h2) = bind-eq-ok (marshal_duration s.duration) _ h1 in
    let (local, hl, h3) =
      bind-eq-ok (marshal_endpoint_field l e local_endpoint_field s.local_endpoint) _ h2 in
    let (remote, hr, h4) =
      bind-eq-ok (marshal_endpoint_field l e remote_endpoint_field s.remote_endpoint) _ h3 in
    let same : span_fields l s t d local remote ≡ fields = ground arith in
    rw (← same) (
      span_fields-FitsSchema l s t d local remote
        (marshal_endpoint_field-FitsSchema l e local_endpoint_field (λ j x. x) s.local_endpoint
          local hl)
        (marshal_endpoint_field-FitsSchema l e remote_endpoint_field (λ j x. x) s.remote_endpoint
          remote hr))
