-- ===== src/B3/Single/Shape.antt =====
-- `parse_wide` on a header that starts with printed identifiers.
use zipkin_go.Base.{
  ℕ, ◌^◌, ◌<◌, ◌≡◌, ◌≢◌, refl, sym, ap, ◌∙◌, Option, [], ◌∷◌, ◌++◌, append_assoc, arith, Str,
  length-append, Outcome, ok, ◌>>=◌, index, index-append, slice, slice-append, slice-skip,
  ne→==_false,
}
use zipkin_go.Strconv.{hex_pad}
use zipkin_go.Strconv.RoundTrip.{
  length-hex_pad, parse_uint-hex_pad_16, hex_pad-lacks_dash, hex_pad-cons,
}
use zipkin_go.Model.SpanIds.{SpanId}
use zipkin_go.Model.Spans.{SpanContext, empty_context}
use zipkin_go.B3.Single.{parse_high, parse_state, parse_wide}

-- What `parse_wide` makes of the identifiers, before the state is looked at.
abbrev pub with_ids : ℕ → ℕ → ℕ → Outcome (Option SpanId × Str) → Outcome (SpanContext × Str)
with_ids high low id state = do
  (parent_id, sampling) ← state
  ok (
    record empty_context {
      trace_id = record { high = high; low = low };
      id = id;
      parent_id = parent_id;
    },
    sampling,
  )

module _ (a s : ℕ) (a_bound : a < 2 ^ 64) (s_bound : s < 2 ^ 64) (rest : Str) where
  abbrev pub short_header : Str
  short_header = hex_pad 16 a ++ b'-' ∷ (hex_pad 16 s ++ rest)

  pub parse_wide_short : parse_wide short_header ≡ with_ids 0 a s (parse_state short_header 0)
  unfolding parse_wide parse_high
  parse_wide_short = rw (
    index-append (hex_pad 16 a) (hex_pad 16 s ++ rest) b'-' 16 (length-hex_pad 16 a),
    slice-append [] (hex_pad 16 a) (b'-' ∷ (hex_pad 16 s ++ rest)) 0 16 refl
        (omega (arith, length-hex_pad 16 a)),
    parse_uint-hex_pad_16 a a_bound,
    slice-skip (hex_pad 16 a) b'-' (hex_pad 16 s) rest 17 33 (omega (arith, length-hex_pad 16 a))
        (omega (arith, length-hex_pad 16 s)),
    parse_uint-hex_pad_16 s s_bound,
  )

module _ (h a s : ℕ) (h_bound : h < 2 ^ 64) (a_bound : a < 2 ^ 64) (s_bound : s < 2 ^ 64)
    (rest : Str) where
  abbrev pub long_header : Str
  long_header = hex_pad 16 h ++ (hex_pad 16 a ++ b'-' ∷ (hex_pad 16 s ++ rest))

  -- The byte where a short header has its first dash is a digit.
  pub index-long_header : (c : ℕ) × (index long_header 16 ≡ ok c) × (c ≢ b'-')
  index-long_header =
      let (c, t, e) = hex_pad-cons 15 a in
      (
        c,
        ap (λ u. index (hex_pad 16 h ++ (u ++ b'-' ∷ (hex_pad 16 s ++ rest))) 16) e
            ∙ index-append (hex_pad 16 h) (t ++ b'-' ∷ (hex_pad 16 s ++ rest)) c 16
                (length-hex_pad 16 h),
        (rw e at (hex_pad-lacks_dash 16 a)).0,
      )

  slice_span_id : slice long_header 33 49 ≡ ok (hex_pad 16 s)
  slice_span_id =
      ap (λ t. slice t 33 49)
        (sym (append_assoc (hex_pad 16 h) (hex_pad 16 a) (b'-' ∷ (hex_pad 16 s ++ rest))))
      ∙ slice-skip (hex_pad 16 h ++ hex_pad 16 a) b'-' (hex_pad 16 s) rest 33 49
          (omega (
            arith,
            length-append (hex_pad 16 h) (hex_pad 16 a),
            length-hex_pad 16 a,
            length-hex_pad 16 h,
          ))
          (omega (arith, length-hex_pad 16 s))

  pub parse_wide_long : parse_wide long_header ≡ with_ids h a s (parse_state long_header 16)
  unfolding parse_wide parse_high
  parse_wide_long =
      let (c, at_16, digit) = index-long_header in
      rw (
        at_16,
        ne→==_false c b'-' digit,
        slice-append [] (hex_pad 16 h) (hex_pad 16 a ++ b'-' ∷ (hex_pad 16 s ++ rest)) 0 16 refl
            (omega (arith, length-hex_pad 16 h)),
        parse_uint-hex_pad_16 h h_bound,
        slice-append (hex_pad 16 h) (hex_pad 16 a) (b'-' ∷ (hex_pad 16 s ++ rest)) 16 32
            (length-hex_pad 16 h) (omega (arith, length-hex_pad 16 a)),
        parse_uint-hex_pad_16 a a_bound,
        slice_span_id,
        parse_uint-hex_pad_16 s s_bound,
      )
