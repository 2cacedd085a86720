-- ===== src/B3/Headers/Laws.antt =====
-- What `ParseHeaders` accepts, refuses and returns.
use zipkin_go.Base.{
  ℕ, ◌-◌, ◌^◌, ◌<◌, ◌≡◌, ◌≢◌, inl, inr, ◌↔◌, refl, ap, ◌==◌, Bool, true, false, Bool-cases, Option,
  none, some, [], ◌∷◌, ◌++◌, arith, is_ok, if◌then◌else◌, Str, length, Outcome, ok, panic, Panic,
  str_eq, codes, to_lower, slice_in_range, take, drop,
}
use zipkin_go.Strconv.{parse_uint, hex_pad}
use zipkin_go.Strconv.Accepts.{parse_uint_no_panic}
use zipkin_go.Strconv.RoundTrip.{parse_uint-hex_pad_16, hex_pad-cons}
use zipkin_go.Model.TraceIds.{
  TraceId, no_trace_id, trace_id_from_hex, trace_id_string, trace_id_from_hex-trace_id_string,
}
use zipkin_go.Model.SpanIds.{SpanId, span_id_string}
use zipkin_go.B3.Wire.{IsWire, wire_context}
use zipkin_go.Model.Spans.{SpanContext}
use zipkin_go.B3.Headers.{parse_sampled, parse_parent_header, parse_headers}

trace_id_from_hex_no_panic : (h : Str) (p : Panic) → trace_id_from_hex h ≢ panic p
unfolding trace_id_from_hex
trace_id_from_hex_no_panic h p = ground (
  arith,
  slice_in_range h 0 (length h - 16),
  slice_in_range h (length h - 16) (length h),
  parse_uint_no_panic h p,
  parse_uint_no_panic (take (length h - 16 - 0) (drop 0 h)) p,
  parse_uint_no_panic (take (length h - (length h - 16)) (drop (length h - 16) h)) p,
)

parse_sampled_no_panic : (h : Str) (p : Panic) → parse_sampled h ≢ panic p
unfolding parse_sampled
parse_sampled_no_panic h p = ground arith

-- `ParseHeaders` returns on every five texts.
pub parse_headers_no_panic : (t s p sa f : Str) (q : Panic) → parse_headers t s p sa f ≢ panic q
unfolding parse_headers
parse_headers_no_panic [] [] [] sa f q = ground (arith, parse_sampled_no_panic sa q)
parse_headers_no_panic [] [] (c ∷ p) sa f q = ground (arith, parse_sampled_no_panic sa q)
parse_headers_no_panic [] (b ∷ s) p sa f q =
    ground (arith, parse_sampled_no_panic sa q, parse_uint_no_panic (b ∷ s) q)
parse_headers_no_panic (a ∷ t) [] p sa f q =
    ground (arith, parse_sampled_no_panic sa q, trace_id_from_hex_no_panic (a ∷ t) q)
parse_headers_no_panic (a ∷ t) (b ∷ s) [] sa f q = ground (
  arith,
  parse_sampled_no_panic sa q,
  trace_id_from_hex_no_panic (a ∷ t) q,
  parse_uint_no_panic (b ∷ s) q,
)
parse_headers_no_panic (a ∷ t) (b ∷ s) (c ∷ p) sa f q = ground (
  arith,
  parse_sampled_no_panic sa q,
  trace_id_from_hex_no_panic (a ∷ t) q,
  parse_uint_no_panic (b ∷ s) q,
  parse_uint_no_panic (c ∷ p) q,
)

abbrev pub ReadsIds : Str → Str → SpanContext → Type 0
ReadsIds [] [] sc = (sc.trace_id ≡ no_trace_id) × (sc.id ≡ 0)
ReadsIds (a ∷ t) (b ∷ s) sc =
    (trace_id_from_hex (a ∷ t) ≡ ok sc.trace_id) × (parse_uint (b ∷ s) ≡ ok sc.id)
ReadsIds _ _ sc = ⊥

abbrev pub IsParent : Outcome ℕ → Option SpanId → Type 0
IsParent x none = ⊥
IsParent x (some i) = x ≡ ok i

abbrev pub ReadsParent : Str → Str → Option SpanId → Type 0
ReadsParent t [] parent = parent ≡ none
ReadsParent [] (c ∷ p) parent = ⊥
ReadsParent (a ∷ t) (c ∷ p) parent = IsParent (parse_uint (c ∷ p)) parent

-- What the five texts say of a context, in the absence of an error.
pub record Reads (t s p sa f : Str) (sc : SpanContext) : Type 0 where
  pub ids : ReadsIds t s sc
  pub parent : ReadsParent t p sc.parent_id
  pub debug : sc.debug ≡ str_eq f (codes "1")
  pub sampled_ok : is_ok (parse_sampled sa) ≡ true
  pub sampled : sc.debug ≡ false → parse_sampled sa ≡ ok sc.sampled
  pub debug_only : sc.debug ≡ true → sc.sampled ≡ none
  pub no_err : sc.err ≡ none
  pub no_baggage : sc.baggage ≡ none

parse_headers_sound :
    (t s p sa f : Str) (sc : SpanContext) → parse_headers t s p sa f ≡ ok sc → Reads t s p sa f sc
unfolding parse_headers
parse_headers_sound [] [] [] sa f sc h = ground arith
parse_headers_sound [] [] (c ∷ p) sa f sc h = ground arith
parse_headers_sound [] (b ∷ s) p sa f sc h = ground arith
parse_headers_sound (a ∷ t) [] p sa f sc h = ground arith
parse_headers_sound (a ∷ t) (b ∷ s) [] sa f sc h = ground arith
parse_headers_sound (a ∷ t) (b ∷ s) (c ∷ p) sa f sc h = ground arith

parse_headers_complete :
    (t s p sa f : Str) (sc : SpanContext) → Reads t s p sa f sc → parse_headers t s p sa f ≡ ok sc
unfolding parse_headers
parse_headers_complete [] [] [] sa f sc h = ground arith
parse_headers_complete [] [] (c ∷ p) sa f sc h = ground arith
parse_headers_complete [] (b ∷ s) p sa f sc h = ground arith
parse_headers_complete (a ∷ t) [] p sa f sc h = ground arith
parse_headers_complete (a ∷ t) (b ∷ s) [] sa f sc h = ground arith
parse_headers_complete (a ∷ t) (b ∷ s) (c ∷ p) sa f sc h = ground arith

-- `ParseHeaders` returns a context exactly where the texts say so: both identifiers or neither, a
-- parent only beside them, each a number that fits, a sampling value that is known; a flags text of
-- "1" sets the debug flag and clears the sampling decision.
pub parse_headers_iff :
    (t s p sa f : Str) (sc : SpanContext) → (parse_headers t s p sa f ≡ ok sc) ↔ Reads t s p sa f sc
parse_headers_iff t s p sa f sc =
    (parse_headers_sound t s p sa f sc, parse_headers_complete t s p sa f sc)

abbrev pub parent_text : Option SpanId → Str
parent_text none = []
parent_text (some p) = span_id_string p

abbrev pub sampled_text : Bool → Option Bool → Str
sampled_text false (some true) = codes "1"
sampled_text false (some false) = codes "0"
sampled_text _ _ = []

abbrev pub flags_text : Bool → Str
flags_text true = codes "1"
flags_text false = []

trace_id_string-cons : (t : TraceId) → (c : ℕ) × (s : Str) × (trace_id_string t ≡ c ∷ s)
unfolding trace_id_string
trace_id_string-cons t = elim (Bool-cases (t.high == 0)) [
  | inl e ↦ rw e (hex_pad-cons 15 t.low)
  | inr e ↦
      (let (c, s, q) = hex_pad-cons 15 t.high in
        (c, s ++ hex_pad 16 t.low, rw e (ap (λ u. u ++ hex_pad 16 t.low) q)))
]

parse_parent_text :
    (p : Option SpanId)
    → ((q : SpanId) → p ≡ some q → q < 2 ^ 64)
    → parse_parent_header false (parent_text p) ≡ ok p
unfolding parse_parent_header
parse_parent_text none b = refl
parse_parent_text (some p) b =
    let (c, s, q) = hex_pad-cons 15 p in
    unfold span_id_string in rw (q, (rw q at (parse_uint-hex_pad_16 p (b p refl))))

parse_state_text :
    (d : Bool) (sa : Option Bool) → parse_sampled (sampled_text d sa) ≡ ok (if d then none else sa)
unfolding parse_sampled to_lower
parse_state_text true sa = refl
parse_state_text false none = refl
parse_state_text false (some true) = refl
parse_state_text false (some false) = refl

-- `ParseHeaders` reads the texts that are printed for a context.
pub parse_headers_back :
    (sc : SpanContext)
    → IsWire sc
    → parse_headers
        (trace_id_string sc.trace_id)
        (span_id_string sc.id)
        (parent_text sc.parent_id)
        (sampled_text sc.debug sc.sampled)
        (flags_text sc.debug)
      ≡ ok (wire_context sc)
unfolding parse_headers span_id_string
parse_headers_back sc v =
    let (a, t, et) = trace_id_string-cons sc.trace_id in
    let (b, s, es) = hex_pad-cons 15 sc.id in
    let ht = rw et at (trace_id_from_hex-trace_id_string sc.trace_id v.trace_bound) in
    let hs = rw es at (parse_uint-hex_pad_16 sc.id v.span_bound) in
    rw
      (
        parse_state_text sc.debug sc.sampled,
        et,
        es,
        ht,
        hs,
        parse_parent_text sc.parent_id v.parent_bound,
      )
      (ground arith)
