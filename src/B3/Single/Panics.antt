-- ===== src/B3/Single/Panics.antt =====
-- When `ParseSingleHeader` panics.
use zipkin_go.Base.{
  ℕ, ◌+◌, ◌-◌, ◌<◌, ◌≤◌, ◌≡◌, ◌≢◌, ◌↔◌, refl, ap, ◌∙◌, ◌==◌, true, Bool-cases, ==_iff, ne→==_false,
  inl, inr, [], ◌∷◌, arith, take, drop, is_ok, Str, length, ok, panic, Panic, out_of_range, index,
  index_in_range, slice_in_range, slice-out_of_range,
}
use zipkin_go.Strconv.{parse_uint}
use zipkin_go.Strconv.Accepts.{parse_uint_no_panic, parse_uint-cases}
use zipkin_go.B3.Single.{
  parse_high, parse_state, parse_wide, parse_parts, parse_single_header, set_sampling,
}

-- A 128-bit trace identifier, and too few bytes behind it to hold a dash and a span identifier.
pub record IsTruncated (h : Str) : Type 0 where
  pub lower : 33 ≤ length h
  pub upper : length h < 49
  pub wide : (index h 16 ≡ ok b'-') → ⊥
  pub high_ok : is_ok (parse_uint (take 16 h)) ≡ true
  pub low_ok : is_ok (parse_uint (take 16 (drop 16 h))) ≡ true

parse_state_no_panic : (h : Str) (pos : ℕ) (p : Panic) → parse_state h pos ≢ panic p
unfolding parse_state
parse_state_no_panic h pos p = ground (
  arith,
  index_in_range h (pos + 16 + 1 + 16 + 1),
  slice_in_range h (pos + 16 + 1 + 16 + 1 + 1 + 1) (length h),
  parse_uint_no_panic
      (take (length h - (pos + 16 + 1 + 16 + 1 + 1 + 1)) (drop (pos + 16 + 1 + 16 + 1 + 1 + 1) h))
      p,
)

-- With a dash behind the first 16 digits every part is in range.
parse_wide_short_no_panic :
    (h : Str) (p : Panic) → 33 ≤ length h → index h 16 ≡ ok b'-' → parse_wide h ≢ panic p
unfolding parse_wide parse_high
parse_wide_short_no_panic h p k dash = ground (
  arith,
  slice_in_range h 0 16,
  slice_in_range h 17 33,
  parse_uint_no_panic (take 16 h) p,
  parse_uint_no_panic (take 16 (drop 17 h)) p,
  parse_state_no_panic h 0 p,
)

module _ (h : Str) (p : Panic) (k : 33 ≤ length h) (c : ℕ) (at_16 : index h 16 ≡ ok c)
    (wide : c ≢ b'-') where
  wide_high : parse_wide h ≡ panic p → (n : ℕ) × (parse_uint (take 16 h) ≡ ok n)
  unfolding parse_wide parse_high
  wide_high e = elim (parse_uint-cases (take 16 h)) [
    | inl r ↦ r
    | inr (x, q) ↦
        let e' =
          rw (at_16, ne→==_false c b'-' wide, slice_in_range h 0 16 (omega arith) (omega arith), q)
            at e in
        cc
  ]

  wide_low :
      (high : ℕ)
      → parse_uint (take 16 h) ≡ ok high
      → parse_wide h ≡ panic p
      → (n : ℕ) × (parse_uint (take 16 (drop 16 h)) ≡ ok n)
  unfolding parse_wide parse_high
  wide_low high at_high e = elim (parse_uint-cases (take 16 (drop 16 h))) [
    | inl r ↦ r
    | inr (x, q) ↦
        let e' =
          rw
            (
              at_16,
              ne→==_false c b'-' wide,
              slice_in_range h 0 16 (omega arith) (omega arith),
              at_high,
              slice_in_range h 16 32 (omega arith) (omega arith),
              q,
            )
            at e in
        cc
  ]

  wide_rest :
      (high low : ℕ)
      → parse_uint (take 16 h) ≡ ok high
      → parse_uint (take 16 (drop 16 h)) ≡ ok low
      → parse_wide h ≡ panic p
      → (p ≡ out_of_range) × (length h < 49)
  unfolding parse_wide parse_high
  wide_rest high low at_high at_low e =
      let e' =
        rw
          (
            at_16,
            ne→==_false c b'-' wide,
            slice_in_range h 0 16 (omega arith) (omega arith),
            at_high,
            slice_in_range h 16 32 (omega arith) (omega arith),
            at_low,
          )
          at e in
      ground (
        arith,
        slice_in_range h 33 49,
        slice-out_of_range h 33 49,
        parse_uint_no_panic (take 16 (drop 33 h)) p,
        parse_state_no_panic h 16 p,
      )

  parse_wide_long_panic :
      parse_wide h ≡ panic p
      → (p ≡ out_of_range)
        × (length h < 49)
        × (is_ok (parse_uint (take 16 h)) ≡ true)
        × (is_ok (parse_uint (take 16 (drop 16 h))) ≡ true)
  parse_wide_long_panic e =
      let (high, at_high) = wide_high e in
      let (low, at_low) = wide_low high at_high e in
      let (q, short) = wide_rest high low at_high at_low e in
      (q, short, rw at_high refl, rw at_low refl)

  parse_wide_truncated :
      length h < 49
      → is_ok (parse_uint (take 16 h)) ≡ true
      → is_ok (parse_uint (take 16 (drop 16 h))) ≡ true
      → parse_wide h ≡ panic out_of_range
  unfolding parse_wide parse_high
  parse_wide_truncated short high_ok low_ok =
      ground (arith, slice_in_range h 0 16, slice_in_range h 16 32, slice-out_of_range h 33 49)

parse_single_panic :
    (h : Str) (p : Panic)
    → parse_single_header h ≡ panic p
    → (33 ≤ length h) × (parse_wide h ≡ panic p)
unfolding parse_single_header parse_parts set_sampling
parse_single_panic h p e = ground arith

wide_panics :
    (h : Str) (p : Panic) → 33 ≤ length h → parse_wide h ≡ panic p → parse_single_header h ≡ panic p
unfolding parse_single_header parse_parts
wide_panics [] p k e = absurd (omega arith)
wide_panics (c ∷ h) p k e = ground arith

parse_wide_panic :
    (h : Str) (p : Panic)
    → 33 ≤ length h
    → parse_wide h ≡ panic p
    → (p ≡ out_of_range) × IsTruncated h
parse_wide_panic h p k e =
    let (c, at_16) = index_in_range h 16 (omega arith) in
    elim (Bool-cases (c == b'-')) [
      | inl dash ↦
          absurd (parse_wide_short_no_panic h p k (at_16 ∙ ap ok ((==_iff c b'-').0 dash)) e)
      | inr d ↦
          (let (q, short, high_ok, low_ok) =
              parse_wide_long_panic h p k c at_16 (λ x. ground arith) e in
            (
              q,
              record {
                lower = k;
                upper = short;
                wide = λ x. ground arith;
                high_ok = high_ok;
                low_ok = low_ok;
              },
            ))
    ]

-- `ParseSingleHeader` panics, with a slice out of range, exactly on the headers of 33 to 48 bytes
-- that start with 32 digits of a 128-bit trace identifier, and on no other header.
pub parse_single_header_panics_iff :
    (h : Str) (p : Panic) → (parse_single_header h ≡ panic p) ↔ ((p ≡ out_of_range) × IsTruncated h)
parse_single_header_panics_iff h p = (
  (λ e. let (k, w) = parse_single_panic h p e in parse_wide_panic h p k w),
  λ (q, t).
      let (c, at_16) = index_in_range h 16 (omega (arith, t.lower)) in
      wide_panics h p t.lower (
        rw q (
          parse_wide_truncated h out_of_range t.lower c at_16 (λ x. t.wide (at_16 ∙ ap ok x))
            t.upper t.high_ok t.low_ok)),
)
