-- ===== src/B3/Single/State.antt =====
-- `parse_state` on each form of state that may follow the identifiers.
use zipkin_go.Base.{
  ℕ, ◌+◌, ◌^◌, ◌<◌, ◌≡◌, sym, ap, ◌∙◌, none, some, [], ◌∷◌, ◌++◌, append_assoc, arith, Str, length,
  length-append, ok, err, index, index-skip, slice, slice_last, rune_str,
  invalid_scope_parent_single,
}
use zipkin_go.Strconv.{hex_pad}
use zipkin_go.Strconv.RoundTrip.{length-hex_pad, parse_uint-hex_pad_16}
use zipkin_go.B3.Single.{parse_state}

module _ (ids : Str) (pos : ℕ) (n : length ids ≡ pos + 16 + 1 + 16) where
  pub parse_state_nil : parse_state (ids ++ []) pos ≡ ok (none, [])
  unfolding parse_state
  parse_state_nil = ground (arith, length-append ids [])

  pub parse_state_sampling :
      (c : ℕ) → parse_state (ids ++ b'-' ∷ c ∷ []) pos ≡ ok (none, rune_str c)
  unfolding parse_state
  parse_state_sampling c =
      let h = ids ++ b'-' ∷ c ∷ [] in
      let e : length h ≡ pos + 16 + 1 + 16 + 1 + 1 =
        omega (arith, length-append ids (b'-' ∷ c ∷ [])) in
      let at_c : index h (pos + 16 + 1 + 16 + 1) ≡ ok c =
        index-skip ids [] b'-' c (pos + 16 + 1 + 16 + 1) (omega arith) in
      ground (arith, e, at_c)

  pub parse_state_parent :
      (c p : ℕ)
      → p < 2 ^ 64
      → parse_state (ids ++ b'-' ∷ c ∷ b'-' ∷ hex_pad 16 p) pos ≡ ok (some p, rune_str c)
  unfolding parse_state
  parse_state_parent c p p_bound =
      let h = ids ++ b'-' ∷ c ∷ b'-' ∷ hex_pad 16 p in
      let e : length h ≡ pos + 16 + 1 + 16 + 1 + 1 + 1 + 16 =
        omega (arith, length-append ids (b'-' ∷ c ∷ b'-' ∷ hex_pad 16 p), length-hex_pad 16 p) in
      let at_c : index h (pos + 16 + 1 + 16 + 1) ≡ ok c =
        index-skip ids (b'-' ∷ hex_pad 16 p) b'-' c (pos + 16 + 1 + 16 + 1) (omega arith) in
      let last : slice h (pos + 16 + 1 + 16 + 1 + 1 + 1) (length h) ≡ ok (hex_pad 16 p) =
        ap (λ t. slice t (pos + 16 + 1 + 16 + 1 + 1 + 1) (length h))
          (sym (append_assoc ids (b'-' ∷ c ∷ b'-' ∷ []) (hex_pad 16 p)))
        ∙ slice_last (ids ++ b'-' ∷ c ∷ b'-' ∷ []) (hex_pad 16 p) _ _
            (omega (arith, length-append ids (b'-' ∷ c ∷ b'-' ∷ [])))
            (omega (arith, length-hex_pad 16 p)) in
      ground (arith, e, at_c, last, parse_uint-hex_pad_16 p p_bound)

  pub parse_state_bare_parent :
      (p : ℕ) → parse_state (ids ++ b'-' ∷ hex_pad 16 p) pos ≡ err invalid_scope_parent_single
  unfolding parse_state
  parse_state_bare_parent p =
      ground (arith, length-append ids (b'-' ∷ hex_pad 16 p), length-hex_pad 16 p)
