-- ===== src/Endpoints/Addresses.antt =====
-- Which addresses an endpoint gets.
use zipkin_go.Base.{
  ℕ, ◌+◌, ◌-◌, ◌*◌, ◌^◌, ◌<◌, ◌≡◌, refl, ◌∙◌, ap, arith, true, false, ◌&&◌, ◌||◌, not, some, List,
  [], ◌∷◌, Str, length, length-append, length-drop, ◌==◌, Bool-cases, if◌then◌else◌, Error, Outcome,
  ok, bind-eq-ok, inl, inr,
}
use zipkin_go.Model.Spans.{Endpoint}
use zipkin_go.Model.Json.Encode.{ipv4_prefix}
use zipkin_go.Model.Json.Checks.{ip_fits, ips_fit}
use zipkin_go.Endpoints.{
  scan_port, parse_port, to_4, to_16, is_nil, keep, take_address, choose_addresses, wrap_lookup,
  split_host_port, with_port, lookup_endpoint, new_endpoint,
}

-- The first address that is IPv4, and the first of sixteen bytes that is not.
abbrev pub first_four : List (List ℕ) → List ℕ
first_four [] = []
first_four (ip ∷ ips) = keep (to_4 ip) (first_four ips)

abbrev pub first_six : List (List ℕ) → List ℕ
first_six [] = []
first_six (ip ∷ ips) = if is_nil (to_4 ip) then keep (to_16 ip) (first_six ips) else first_six ips

keep-nil : (ip : List ℕ) → keep ip [] ≡ ip
keep-nil [] = refl
keep-nil (b ∷ ip) = ground arith

keep-keep : (a b c : List ℕ) → keep (keep a b) c ≡ keep a (keep b c)
keep-keep a b c = ground arith

keep_full : (a b : List ℕ) → is_nil a ≡ false → keep a b ≡ a
keep_full a b full = rw full refl

module _ (ip : List ℕ) (ips : List (List ℕ)) (four six : List ℕ) where
  take_address-first :
      (let (four', six') = take_address ip (four, six) in
        (keep four' (first_four ips) ≡ keep four (first_four (ip ∷ ips)))
        × (keep six' (first_six ips) ≡ keep six (first_six (ip ∷ ips))))
  unfolding take_address
  take_address-first = elim (Bool-cases (is_nil (to_4 ip))) [
    | inl other ↦ rw other (refl, keep-keep six (to_16 ip) (first_six ips))
    | inr found ↦ rw found (
      keep-keep four (to_4 ip) (first_four ips)
          ∙ ap (keep four) (keep_full (to_4 ip) (first_four ips) found),
      refl,
    )
  ]

stop_early :
    (a b x y : List ℕ) (rest : List ℕ × List ℕ)
    → rest ≡ (keep a x, keep b y)
    → (if not (is_nil a) && not (is_nil b) then (a, b) else rest) ≡ (keep a x, keep b y)
stop_early a b x y rest h = elim (Bool-cases (is_nil a)) [
  | inl none_a ↦ rw none_a (h ∙ rw none_a refl)
  | inr some_a ↦ elim (Bool-cases (is_nil b)) [
    | inl none_b ↦ rw (some_a, none_b) (h ∙ rw (some_a, none_b) refl)
    | inr some_b ↦ rw (some_a, some_b) refl
  ]
]

-- The loop, though it ends early, finds for each field what it holds, or else the first address.
pub choose_addresses_lem :
    (ips : List (List ℕ)) (four six : List ℕ)
    → choose_addresses ips (four, six) ≡ (keep four (first_four ips), keep six (first_six ips))
unfolding choose_addresses
choose_addresses_lem [] four six = rw (keep-nil four, keep-nil six) refl
choose_addresses_lem (ip ∷ ips) four six =
    let (four', six') = take_address ip (four, six) in
    let (at_four, at_six) = take_address-first ip ips four six in
    rw (← at_four, ← at_six)
      (stop_early four' six' (first_four ips) (first_six ips) _
        (choose_addresses_lem ips four' six'))

four_or_none : (ip : List ℕ) → (is_nil (to_4 ip) || length (to_4 ip) == 4) ≡ true
unfolding to_4
four_or_none ip = ground (arith, length-drop 12 ip)

sixteen_or_none : (ip : List ℕ) → (is_nil (to_16 ip) || length (to_16 ip) == 16) ≡ true
unfolding to_16
sixteen_or_none ip = ground (arith, length-append ipv4_prefix ip)

first_four-fits : (ips : List (List ℕ)) → ip_fits (first_four ips) ≡ true
first_four-fits [] = refl
first_four-fits (ip ∷ ips) = ground (arith, four_or_none ip, first_four-fits ips)

first_six-fits : (ips : List (List ℕ)) → ip_fits (first_six ips) ≡ true
first_six-fits [] = refl
first_six-fits (ip ∷ ips) = ground (arith, sixteen_or_none ip, first_six-fits ips)

scan_port-lt : (s : Str) (n p : ℕ) → n < 2 ^ 16 → scan_port s n ≡ ok p → p < 2 ^ 16
unfolding scan_port
scan_port-lt [] n p h e = ground arith
scan_port-lt (c ∷ s) n p h e = ground (arith, scan_port-lt s (n * 10 + (c - 48)) p)

parse_port-lt : (s : Str) (p : ℕ) → parse_port s ≡ ok p → p < 2 ^ 16
unfolding parse_port
parse_port-lt [] p e = cc
parse_port-lt (c ∷ s) p e = scan_port-lt (c ∷ s) 0 p (omega arith) e

module _ (error_text : Error → Str) (lookup_ip : Str → Outcome (List (List ℕ))) where
  -- What an endpoint that is returned satisfies.
  abbrev pub Fits : Str → Endpoint → Type 0
  Fits service_name e =
      (e.service_name ≡ service_name) × (ips_fit (some e) ≡ true) × (e.port < 2 ^ 16)

  lookup_endpoint-Fits :
      (service_name host_port : Str) (e : Endpoint)
      → lookup_endpoint error_text lookup_ip service_name host_port ≡ ok e
      → Fits service_name e
  unfolding lookup_endpoint
  lookup_endpoint-Fits service_name host_port e h =
      let ((host, port), split, h1) = bind-eq-ok (split_host_port (with_port host_port)) _ h in
      let (p, parsed, h2) = bind-eq-ok (parse_port port) _ h1 in
      let (ips, found, h3) = bind-eq-ok (wrap_lookup error_text (lookup_ip host)) _ h2 in
      let small = parse_port-lt port p parsed in
      ground (arith, choose_addresses_lem ips [] [], first_four-fits ips, first_six-fits ips, h3)

  -- An endpoint that `NewEndpoint` returns has the service name that was given, a port of sixteen
  -- bits, and addresses of no, four or sixteen bytes, as `MarshalJSON` wants them, whatever the
  -- address and whatever the lookup finds.
  pub new_endpoint-Fits :
      (service_name host_port : Str) (e : Endpoint)
      → new_endpoint error_text lookup_ip service_name host_port ≡ ok (some e)
      → Fits service_name e
  unfolding new_endpoint
  new_endpoint-Fits service_name host_port e h =
      ground (arith, lookup_endpoint-Fits service_name host_port e)
