-- ===== src/B3/Carriers/RoundTrip.antt =====
-- What is injected into a fresh carrier of any kind is extracted from it.
use zipkin_go.Base.{
  ◌≡◌, ◌⊎◌, inl, inr, refl, Bool, true, false, Bool-cases, Option-cases, Error, Option, none, some,
  [], ◌∷◌, arith, if◌then◌else◌, Str, ok, err, str_eq, codes, lt→ltb,
}
use zipkin_go.Model.TraceIds.{trace_id_string}
use zipkin_go.Model.SpanIds.{SpanId, span_id_string}
use zipkin_go.Model.Spans.{SpanContext}
use zipkin_go.B3.Wire.{IsWire, IsDecided, wire_context}
use zipkin_go.B3.Headers.{Key, trace_id, span_id, parent_span_id, sampled, flags, context, key_text}
use zipkin_go.B3.Headers.Laws.{parent_text, sampled_text, flags_text, parse_headers_back}
use zipkin_go.B3.Single.{parse_single_header, build_single_header}
use zipkin_go.B3.Single.RoundTrip.{
  parse_single_header-build_single_header, undecided_parent_refused,
}
use zipkin_go.B3.Carriers.{
  Carrier, InjectOptions, inject_options, extract, extract_headers, inject, inject_multi,
  inject_state, inject_parent, is_zero_context,
}

parse_single_header-ok_ne_nil :
    (h : Str) (x : SpanContext) → parse_single_header h ≡ ok x → str_eq h [] ≡ false
unfolding parse_single_header
parse_single_header-ok_ne_nil [] x e = cc
parse_single_header-ok_ne_nil (c ∷ h) x e = refl

IsDecided-cases :
    (sc : SpanContext)
    → ((sc.parent_id ≡ none) ⊎ IsDecided sc)
      ⊎ ((p : SpanId) × (sc.parent_id ≡ some p) × (sc.debug ≡ false) × (sc.sampled ≡ none))
IsDecided-cases sc = elim (Option-cases sc.parent_id) [
  | inl e ↦ inl (inl e)
  | inr (p, e) ↦ elim (Bool-cases sc.debug) [
    | inl d ↦ inl (inr (inl d))
    | inr d ↦ elim (Option-cases sc.sampled) [
      | inl s ↦ inr (p, e, d, s)
      | inr (b, s) ↦ inl (inr (inr (rw s refl)))
    ]
  ]
]

is_zero_context-wire : (sc : SpanContext) → IsWire sc → is_zero_context sc ≡ false
unfolding is_zero_context
is_zero_context-wire sc v = rw (v.has_trace) refl

module _ {C : Type 0} (carrier : Carrier C) where
  open carrier use {get, set, get_set}

  abbrev pub IsFresh : C → Type 0
  IsFresh c = (k : Key) → get c k ≡ []

  written :
      (c : C) (k j : Key) (v old : Str)
      → get c j ≡ old
      → get (set c k v) j ≡ (if str_eq (key_text k) (key_text j) then v else old)
  written c k j v old h = rw (get_set c k j v, h)

  -- What a carrier holds at each key.
  pub record Holds (c : C) (t s p sa f ctx : Str) : Type 0 where
    pub at_trace_id : get c trace_id ≡ t
    pub at_span_id : get c span_id ≡ s
    pub at_parent : get c parent_span_id ≡ p
    pub at_sampled : get c sampled ≡ sa
    pub at_flags : get c flags ≡ f
    pub at_context : get c context ≡ ctx

  set-Holds :
      (c : C) (k : Key) (v : Str) {t s p sa f ctx : Str}
      → Holds c t s p sa f ctx
      → Holds
          (set c k v)
          (if str_eq (key_text k) (key_text trace_id) then v else t)
          (if str_eq (key_text k) (key_text span_id) then v else s)
          (if str_eq (key_text k) (key_text parent_span_id) then v else p)
          (if str_eq (key_text k) (key_text sampled) then v else sa)
          (if str_eq (key_text k) (key_text flags) then v else f)
          (if str_eq (key_text k) (key_text context) then v else ctx)
  set-Holds c k v h = record {
    at_trace_id = written c k trace_id v _ h.at_trace_id;
    at_span_id = written c k span_id v _ h.at_span_id;
    at_parent = written c k parent_span_id v _ h.at_parent;
    at_sampled = written c k sampled v _ h.at_sampled;
    at_flags = written c k flags v _ h.at_flags;
    at_context = written c k context v _ h.at_context;
  }

  inject_state-Holds :
      (d : Bool) (sa : Option Bool) (c : C) {t s p ctx : Str}
      → Holds c t s p [] [] ctx
      → Holds (inject_state carrier d sa c) t s p (sampled_text d sa) (flags_text d) ctx
  unfolding inject_state
  inject_state-Holds true sa c h = set-Holds c flags (codes "1") h
  inject_state-Holds false (some true) c h = set-Holds c sampled (codes "1") h
  inject_state-Holds false (some false) c h = set-Holds c sampled (codes "0") h
  inject_state-Holds false none c h = h

  inject_parent-Holds :
      (q : Option SpanId) (c : C) {t s sa f ctx : Str}
      → Holds c t s [] sa f ctx
      → Holds (inject_parent carrier q c) t s (parent_text q) sa f ctx
  unfolding inject_parent
  inject_parent-Holds none c h = h
  inject_parent-Holds (some q) c h = set-Holds c parent_span_id (span_id_string q) h

  -- The headers that `inject_multi` leaves in a carrier that had none of them.
  pub inject_multi-Holds :
      (sc : SpanContext) (c : C) {ctx : Str}
      → IsWire sc
      → Holds c [] [] [] [] [] ctx
      → Holds
          (inject_multi carrier sc c)
          (trace_id_string sc.trace_id)
          (span_id_string sc.id)
          (parent_text sc.parent_id)
          (sampled_text sc.debug sc.sampled)
          (flags_text sc.debug)
          ctx
  unfolding inject_multi
  inject_multi-Holds sc c v h =
      rw (v.has_trace, lt→ltb 0 sc.id v.has_span)
        (inject_parent-Holds sc.parent_id _ (
          set-Holds _ span_id (span_id_string sc.id) (
            set-Holds _ trace_id (trace_id_string sc.trace_id)
              (inject_state-Holds sc.debug sc.sampled c h))))

  fresh-Holds : (c : C) → IsFresh c → Holds c [] [] [] [] [] []
  fresh-Holds c f = record {
    at_trace_id = f trace_id;
    at_span_id = f span_id;
    at_parent = f parent_span_id;
    at_sampled = f sampled;
    at_flags = f flags;
    at_context = f context;
  }

  extract_headers-Holds :
      (sc : SpanContext) (c : C) {ctx : Str}
      → IsWire sc
      → Holds c
          (trace_id_string sc.trace_id)
          (span_id_string sc.id)
          (parent_text sc.parent_id)
          (sampled_text sc.debug sc.sampled)
          (flags_text sc.debug)
          ctx
      → extract_headers carrier c ≡ ok (wire_context sc)
  unfolding extract_headers
  extract_headers-Holds sc c v h =
      rw (h.at_trace_id, h.at_span_id, h.at_parent, h.at_sampled, h.at_flags)
        (parse_headers_back sc v)

  extract-Holds_single :
      (sc x : SpanContext) (c : C) {t s p sa f h : Str}
      → Holds c t s p sa f h
      → parse_single_header h ≡ ok x
      → extract carrier c ≡ ok x
  unfolding extract
  extract-Holds_single sc x c {h = h} hold e =
      rw (hold.at_context, parse_single_header-ok_ne_nil h x e, e)

  extract-Holds_multi :
      (sc : SpanContext) (c : C) {h : Str}
      → IsWire sc
      → Holds c
          (trace_id_string sc.trace_id)
          (span_id_string sc.id)
          (parent_text sc.parent_id)
          (sampled_text sc.debug sc.sampled)
          (flags_text sc.debug)
          h
      → (h ≡ []) ⊎ ((e : Error) × (parse_single_header h ≡ err e))
      → extract carrier c ≡ ok (wire_context sc)
  unfolding extract
  extract-Holds_multi sc c v hold (inl e) =
      rw (hold.at_context, e) (extract_headers-Holds sc c v hold)
  extract-Holds_multi sc c {h} v hold (inr (x, e)) =
      ground (arith, hold.at_context, e, extract_headers-Holds sc c v hold)

  back_multi :
      (sc : SpanContext) (c : C)
      → IsWire sc
      → Holds c
          (trace_id_string sc.trace_id)
          (span_id_string sc.id)
          (parent_text sc.parent_id)
          (sampled_text sc.debug sc.sampled)
          (flags_text sc.debug)
          (build_single_header sc)
      → extract carrier c ≡ ok (wire_context sc)
  back_multi sc c v hold = elim (IsDecided-cases sc) [
    | inl h ↦
        extract-Holds_single sc (wire_context sc) c hold
          (parse_single_header-build_single_header sc v h)
    | inr (p, e, d, sa) ↦
        extract-Holds_multi sc c v hold (inr (_, undecided_parent_refused sc p v e d sa))
  ]

  back :
      (single multi : Bool) (sc : SpanContext) (c : C)
      → IsWire sc
      → IsFresh c
      → (multi ≡ true) ⊎ ((single ≡ true) × ((sc.parent_id ≡ none) ⊎ IsDecided sc))
      → (c' : C) × (inject carrier
            (record { should_inject_single_header = single; should_inject_multi_header = multi })
            sc
            c
          ≡ ok c')
        × (extract carrier c' ≡ ok (wire_context sc))
  unfolding inject
  back true true sc c v f h = (
    set (inject_multi carrier sc c) context (build_single_header sc),
    rw (is_zero_context-wire sc v) refl,
    back_multi sc _ v (
        set-Holds _ context (build_single_header sc) (inject_multi-Holds sc c v (fresh-Holds c f))),
  )
  back false true sc c v f h = (
    inject_multi carrier sc c,
    rw (is_zero_context-wire sc v) refl,
    extract-Holds_multi sc _ v (inject_multi-Holds sc c v (fresh-Holds c f)) (inl refl),
  )
  back true false sc c v f (inl e) = cc
  back true false sc c v f (inr (_, d)) = (
    set c context (build_single_header sc),
    rw (is_zero_context-wire sc v) refl,
    extract-Holds_single sc (wire_context sc) _
        (set-Holds c context (build_single_header sc) (fresh-Holds c f))
        (parse_single_header-build_single_header sc v d),
  )
  back false false sc c v f h = ground arith

  -- Injection into a carrier with none of the headers, followed by extraction, gives the context
  -- back, but for what no header carries. Injection of the separate headers does so for every context
  -- with both identifiers; injection of the single header alone does so for those that have no parent
  -- or a sampling decision or a debug flag.
  pub extract-inject :
      (o : InjectOptions) (sc : SpanContext) (c : C)
      → IsWire sc
      → IsFresh c
      → (o.should_inject_multi_header ≡ true)
        ⊎ ((o.should_inject_single_header ≡ true) × ((sc.parent_id ≡ none) ⊎ IsDecided sc))
      → (c' : C) × (inject carrier o sc c ≡ ok c') × (extract carrier c' ≡ ok (wire_context sc))
  extract-inject o sc c = back o.should_inject_single_header o.should_inject_multi_header sc c

  -- The same without the single header on either side, as for gRPC.
  pub extract_headers-inject :
      (sc : SpanContext) (c : C)
      → IsWire sc
      → IsFresh c
      → (c' : C) × (inject carrier (inject_options []) sc c ≡ ok c')
        × (extract_headers carrier c' ≡ ok (wire_context sc))
  unfolding inject
  extract_headers-inject sc c v f = (
    inject_multi carrier sc c,
    rw (is_zero_context-wire sc v) refl,
    extract_headers-Holds sc _ v (inject_multi-Holds sc c v (fresh-Holds c f)),
  )
