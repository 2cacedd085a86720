-- ===== src/B3/Carriers/Errors.antt =====
-- The errors and the panics of extraction, and the three kinds of carrier.
use zipkin_go.Base.{
  ◌≡◌, ◌≢◌, ◌⊎◌, ◌↔◌, inl, inr, refl, true, false, none, List, [], ◌∷◌, arith, Error, Str, Dict,
  Outcome-cases, ok, err, panic, Panic, out_of_range, str_eq, str_eq_iff,
}
use zipkin_go.HttpHeader.{HttpHeader}
use zipkin_go.Model.Spans.{SpanContext}
use zipkin_go.B3.Wire.{IsWire, IsDecided, wire_context}
use zipkin_go.B3.Headers.{context}
use zipkin_go.B3.Headers.Laws.{parse_headers_no_panic}
use zipkin_go.B3.Single.{parse_single_header}
use zipkin_go.B3.Single.Panics.{IsTruncated, parse_single_header_panics_iff}
use zipkin_go.B3.Carriers.{Carrier, InjectOption, inject_options, extract, extract_headers}
use zipkin_go.B3.Carriers.Kinds.{
  map_carrier, http_carrier, grpc_carrier, Metadata, extract_map, inject_map, extract_http,
  inject_http, extract_grpc, inject_grpc,
}
use zipkin_go.B3.Carriers.RoundTrip.{IsFresh, extract-inject, extract_headers-inject}

single_panic-ne_nil : (h : Str) (p : Panic) → parse_single_header h ≡ panic p → str_eq h [] ≡ false
unfolding parse_single_header
single_panic-ne_nil [] p e = cc
single_panic-ne_nil (c ∷ h) p e = refl

module _ {C : Type 0} (carrier : Carrier C) (c : C) where
  open carrier use {get}

  extract_headers_no_panic : (p : Panic) → extract_headers carrier c ≢ panic p
  unfolding extract_headers
  extract_headers_no_panic p = parse_headers_no_panic _ _ _ _ _ p

  -- Where an error of extraction comes from.
  abbrev pub FailsWith : Error → Type 0
  FailsWith e =
      (m : Error) × (extract_headers carrier c ≡ err m)
      × (((get c context ≡ []) × (e ≡ m))
          ⊎ ((get c context ≢ []) × (parse_single_header (get c context) ≡ err e)))

  extract-err→ : (e : Error) → extract carrier c ≡ err e → FailsWith e
  unfolding extract
  extract-err→ e h = elim (Outcome-cases (extract_headers carrier c) extract_headers_no_panic) [
    | inl (sc, x) ↦ absurd (ground (arith, x))
    | inr (m, x) ↦ (m, x, ground (arith, str_eq_iff (get c context) []))
  ]

  extract-err← : (e : Error) → FailsWith e → extract carrier c ≡ err e
  unfolding extract
  extract-err← e (m, x, y) = ground (arith, str_eq_iff (get c context) [])

  -- Extraction fails exactly where the separate headers are refused, and the single header is absent
  -- or refused too; the error is that of the single header where there is one.
  pub extract-err_iff : (e : Error) → (extract carrier c ≡ err e) ↔ FailsWith e
  extract-err_iff e = (extract-err→ e, extract-err← e)

  -- Extraction panics exactly where the single header is one on which `ParseSingleHeader` does.
  pub extract-panic_iff :
      (p : Panic)
      → (extract carrier c ≡ panic p) ↔ ((p ≡ out_of_range) × IsTruncated (get c context))
  unfolding extract
  extract-panic_iff p = (
    λ e.
        (parse_single_header_panics_iff (get c context) p).0
          (ground (arith, extract_headers_no_panic p)),
    λ t.
        let h = (parse_single_header_panics_iff (get c context) p).1 t in
        rw (single_panic-ne_nil (get c context) p h, h),
  )

-- A context with both identifiers that is injected into a Go map with no B3 keys is extracted from
-- it, whatever the options, if they ask for the separate headers, or for the single header alone
-- and the context has no parent or is decided.
pub extract_map-inject_map :
    (opts : List InjectOption) (sc : SpanContext) (m : Dict Str)
    → IsWire sc
    → IsFresh map_carrier m
    → ((inject_options opts).should_inject_multi_header ≡ true)
      ⊎ (((inject_options opts).should_inject_single_header ≡ true)
          × ((sc.parent_id ≡ none) ⊎ IsDecided sc))
    → (m' : Dict Str) × (inject_map opts sc m ≡ ok m') × (extract_map m' ≡ ok (wire_context sc))
unfolding inject_map extract_map
extract_map-inject_map opts sc m v f h = extract-inject map_carrier (inject_options opts) sc m v f h

-- A context with both identifiers that is injected into the header of an HTTP request with no B3
-- keys is extracted from it, whatever the options, if they ask for the separate headers, or for the
-- single header alone and the context has no parent or is decided: the canonical form of the keys
-- keeps them apart.
pub extract_http-inject_http :
    (opts : List InjectOption) (sc : SpanContext) (r : HttpHeader)
    → IsWire sc
    → IsFresh http_carrier r
    → ((inject_options opts).should_inject_multi_header ≡ true)
      ⊎ (((inject_options opts).should_inject_single_header ≡ true)
          × ((sc.parent_id ≡ none) ⊎ IsDecided sc))
    → (r' : HttpHeader) × (inject_http opts sc r ≡ ok r') × (extract_http r' ≡ ok (wire_context sc))
unfolding inject_http extract_http
extract_http-inject_http opts sc r v f h =
    extract-inject http_carrier (inject_options opts) sc r v f h

-- Every context with both identifiers that is injected into the metadata of a gRPC call with no B3
-- keys is extracted from them, decided or not.
pub extract_grpc-inject_grpc :
    (sc : SpanContext) (md : Metadata)
    → IsWire sc
    → IsFresh grpc_carrier md
    → (md' : Metadata) × (inject_grpc sc md ≡ ok md') × (extract_grpc md' ≡ ok (wire_context sc))
unfolding inject_grpc extract_grpc
extract_grpc-inject_grpc sc md v f = extract_headers-inject grpc_carrier sc md v f
