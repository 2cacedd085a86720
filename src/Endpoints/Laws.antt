-- ===== src/Endpoints/Laws.antt =====
-- An endpoint from a host and a port.
use zipkin_go.Base.{
  ℕ, zero, suc, ◌+◌, ◌/◌, ◌%◌, ◌^◌, ◌<◌, ◌≡◌, refl, ◌∙◌, ap, sym, arith, Bool, true, false, ◌&&◌,
  ◌||◌, none, some, List, [], ◌∷◌, ◌++◌, append_assoc, append-nil, Str, codes, str_eq, take, drop,
  length, length-append, take-append, leb, ltb, Bool-cases, ==_iff, ne→==_false, inl, inr,
  if◌then◌else◌, Error, Outcome, ok,
}
use zipkin_go.Strconv.{decimal, format_uint}
use zipkin_go.Endpoints.{
  index_byte, last_index, has_byte, check_brackets, split_bracketed, split_at_colon, split_at_last,
  split_host_port, scan_port, parse_port, wrap_lookup, with_port, lookup_endpoint, new_endpoint,
}
use zipkin_go.Endpoints.Addresses.{first_four, first_six, choose_addresses_lem}

add_one : (n : ℕ) → n + 1 ≡ suc n
add_one n = omega arith

-- `net.JoinHostPort`.
abbrev pub join_host_port : Str → Str → Str
join_host_port host port =
    if has_byte b':' host then b'[' ∷ (host ++ b']' ∷ b':' ∷ port) else host ++ b':' ∷ port

has_byte-append : (c : ℕ) (s t : Str) → has_byte c (s ++ t) ≡ (has_byte c s || has_byte c t)
has_byte-append c [] t = refl
has_byte-append c (b ∷ s) t = ground (arith, has_byte-append c s t)

index_byte-append :
    (c : ℕ) (s t : Str) → has_byte c s ≡ false → index_byte c (s ++ c ∷ t) ≡ some (length s)
index_byte-append c [] t h = ground arith
index_byte-append c (b ∷ s) t h = ground (arith, index_byte-append c s t)

last_index-none : (c : ℕ) (s : Str) → has_byte c s ≡ false → last_index c s ≡ none
last_index-none c [] h = refl
last_index-none c (b ∷ s) h = ground (arith, last_index-none c s)

last_index-append :
    (c : ℕ) (s t : Str) → has_byte c t ≡ false → last_index c (s ++ c ∷ t) ≡ some (length s)
last_index-append c [] t h = ground (arith, last_index-none c t h)
last_index-append c (b ∷ s) t h = ground (arith, last_index-append c s t h)

drop-past : (s : Str) (c : ℕ) (t : Str) → drop (suc (length s)) (s ++ c ∷ t) ≡ t
drop-past [] c t = refl
drop-past (b ∷ s) c t = drop-past s c t

drop-past_two : (s : Str) (b c : ℕ) (t : Str) → drop (suc (suc (length s))) (s ++ b ∷ c ∷ t) ≡ t
drop-past_two [] b c t = refl
drop-past_two (x ∷ s) b c t = drop-past_two s b c t

-- The number has at most one digit more than the fuel.
abbrev HasDigits : ℕ → ℕ → Type 0
HasDigits zero n = n < 10
HasDigits (suc f) n = HasDigits f (n / 10)

HasDigits-small : (f n : ℕ) → n < 10 → HasDigits f n
HasDigits-small zero n h = h
HasDigits-small (suc f) n h = HasDigits-small f (n / 10) (omega arith)

scan_port-decimal :
    (f n : ℕ) (rest : Str)
    → HasDigits f n
    → n < 2 ^ 16
    → scan_port (decimal f n ++ rest) 0 ≡ scan_port rest n
unfolding scan_port decimal
scan_port-decimal zero n rest h small = ground arith
scan_port-decimal (suc f) n rest h small = elim (Bool-cases (ltb n 10)) [
  | inl short ↦ rw short (ground arith)
  | inr long ↦ rw long (
      ap (λ s. scan_port s 0) (append_assoc (decimal f (n / 10)) ((48 + n % 10) ∷ []) rest)
      ∙ scan_port-decimal f (n / 10) ((48 + n % 10) ∷ rest) h (omega arith)
      ∙ ground arith)
]

HasDigits-port : (n : ℕ) → n < 2 ^ 16 → HasDigits 19 n
HasDigits-port n h = HasDigits-small 15 (n / 10 / 10 / 10 / 10) (omega arith)

length-decimal_pos : (f n : ℕ) → 0 < length (decimal f n)
unfolding decimal
length-decimal_pos zero n = omega arith
length-decimal_pos (suc f) n =
    ground (arith, length-append (decimal f (n / 10)) ((48 + n % 10) ∷ []))

parse_port_lem : (s : Str) → 0 < length s → parse_port s ≡ scan_port s 0
unfolding parse_port
parse_port_lem [] h = absurd (omega arith)
parse_port_lem (c ∷ s) h = refl

format_uint_lem : (n : ℕ) → format_uint n ≡ decimal 19 n
unfolding format_uint
format_uint_lem n = refl

scan_port_end : (n : ℕ) → scan_port [] n ≡ ok n
unfolding scan_port
scan_port_end n = refl

parse_port-format_uint : (n : ℕ) → n < 2 ^ 16 → parse_port (format_uint n) ≡ ok n
parse_port-format_uint n h =
    ap parse_port (format_uint_lem n)
    ∙ parse_port_lem (decimal 19 n) (length-decimal_pos 19 n)
    ∙ ap (λ s. scan_port s 0) (sym (append-nil (decimal 19 n)))
    ∙ scan_port-decimal 19 n [] (HasDigits-port n h) h
    ∙ scan_port_end n

not_open : (s : Str) → has_byte b'[' s ≡ false → str_eq (take 1 s) (codes "[") ≡ false
not_open [] h = refl
not_open (c ∷ s) h = ground arith

is_digit : ℕ → Bool
is_digit c = leb b'0' c && leb c b'9'

no_byte-decimal :
    (c f n : ℕ) → is_digit c ≡ false → HasDigits f n → has_byte c (decimal f n) ≡ false
unfolding decimal is_digit
no_byte-decimal c zero n h d = ground arith
no_byte-decimal c (suc f) n h d = ground (
  arith,
  no_byte-decimal c f (n / 10) h d,
  has_byte-append c (decimal f (n / 10)) ((48 + n % 10) ∷ []),
)

no_byte-format_uint :
    (c n : ℕ) → is_digit c ≡ false → n < 2 ^ 16 → has_byte c (format_uint n) ≡ false
no_byte-format_uint c n h small =
    ap (has_byte c) (format_uint_lem n) ∙ no_byte-decimal c 19 n h (HasDigits-port n small)

-- What `SplitHostPort` makes of a host and a port that were joined.
module _ (host port : Str) (no_open : has_byte b'[' host ≡ false)
    (no_close : has_byte b']' host ≡ false) (no_colon : has_byte b':' port ≡ false)
    (port_open : has_byte b'[' port ≡ false) (port_close : has_byte b']' port ≡ false) where
  split_plain : has_byte b':' host ≡ false → split_host_port (host ++ b':' ∷ port) ≡ ok (host, port)
  unfolding split_host_port split_at_colon check_brackets
  split_plain plain =
      let s = host ++ b':' ∷ port in
      let free : has_byte b'[' s ≡ false =
        ground (arith, has_byte-append b'[' host (b':' ∷ port)) in
      let free' : has_byte b']' s ≡ false =
        ground (arith, has_byte-append b']' host (b':' ∷ port)) in
      ap (split_at_last s) (last_index-append b':' host port no_colon)
      ∙ rw (not_open s free, take-append (length host) host (b':' ∷ port) refl, plain, free, free')
          (ap (λ k. ok (host, drop k s)) (add_one (length host))
            ∙ ap (λ t. ok (host, t)) (drop-past host b':' port))

  last_colon :
      last_index b':' (b'[' ∷ (host ++ b']' ∷ b':' ∷ port)) ≡ some (suc (suc (length host)))
  last_colon =
      ap (last_index b':') (ap (λ t. b'[' ∷ t) (sym (append_assoc host (b']' ∷ []) (b':' ∷ port))))
      ∙ last_index-append b':' (b'[' ∷ (host ++ b']' ∷ [])) port no_colon
      ∙ ap some (omega (arith, length-append host (b']' ∷ [])))

  check_bracketed :
      (let s = b'[' ∷ (host ++ b']' ∷ b':' ∷ port) in
        check_brackets s host (suc (suc (length host))) 1 (suc (length host) + 1) ≡ ok (host, port))
  unfolding check_brackets
  check_bracketed =
      let tail = b']' ∷ b':' ∷ port in
      let free : has_byte b'[' (host ++ tail) ≡ false =
        ground (arith, has_byte-append b'[' host tail) in
      rw
        (
          free,
          add_one (suc (length host)),
          add_one (suc (suc (length host))),
          drop-past host b']' (b':' ∷ port),
          port_close,
        )
        (ap (λ t. ok (host, t)) (drop-past_two host b']' b':' port))

  split_bracketed_lem : split_host_port (b'[' ∷ (host ++ b']' ∷ b':' ∷ port)) ≡ ok (host, port)
  unfolding split_host_port split_at_colon split_bracketed
  split_bracketed_lem =
      let s = b'[' ∷ (host ++ b']' ∷ b':' ∷ port) in
      let n = length host in
      ap (split_at_last s) last_colon
      ∙ ap (split_bracketed s (suc (suc n)))
          (index_byte-append b']' (b'[' ∷ host) (b':' ∷ port) no_close)
      ∙ rw
          (
            ne→==_false (suc n + 1) (length s)
                (omega (arith, length-append host (b']' ∷ b':' ∷ port))),
            (==_iff (suc n + 1) (suc (suc n))).1 (omega arith),
            take-append n host (b']' ∷ b':' ∷ port) refl,
          )
          check_bracketed

  split_joined : split_host_port (join_host_port host port) ≡ ok (host, port)
  split_joined = elim (Bool-cases (has_byte b':' host)) [
    | inl colons ↦ rw colons split_bracketed_lem
    | inr plain ↦ rw plain (split_plain plain)
  ]

colon-join_host_port : (host port : Str) → has_byte b':' (join_host_port host port) ≡ true
colon-join_host_port host port =
    ground (
      arith,
      has_byte-append b':' host (b':' ∷ port),
      has_byte-append b':' host (b']' ∷ b':' ∷ port),
    )

joined_not_short :
    (host port : Str)
    → 0 < length host
    → (str_eq (join_host_port host port) [] || str_eq (join_host_port host port) (codes ":0"))
      ≡ false
joined_not_short [] port h = absurd (omega arith)
joined_not_short (c ∷ host) port h = ground arith

-- From a host, which is not empty and holds no brackets, and a port of sixteen bits, joined by a colon
-- as `net.JoinHostPort` does, with brackets round a host that holds colons itself, `NewEndpoint` makes
-- an endpoint with the port, with the first IPv4 address that the lookup of the host finds, and with
-- the first other one of sixteen bytes.
pub new_endpoint-join_host_port :
    (error_text : Error → Str) (lookup_ip : Str → Outcome (List (List ℕ))) (service_name host : Str)
    (p : ℕ) (ips : List (List ℕ))
    → 0 < length host
    → has_byte b'[' host ≡ false
    → has_byte b']' host ≡ false
    → p < 2 ^ 16
    → lookup_ip host ≡ ok ips
    → new_endpoint error_text lookup_ip service_name (join_host_port host (format_uint p))
      ≡ ok (
          some (record {
            service_name = service_name;
            ipv4 = first_four ips;
            ipv6 = first_six ips;
            port = p;
          }))
unfolding is_digit new_endpoint lookup_endpoint with_port wrap_lookup
new_endpoint-join_host_port error_text lookup_ip service_name host p ips named no_open no_close
      small found =
    let port = format_uint p in
    let splits =
      split_joined host port no_open no_close (no_byte-format_uint b':' p refl small)
        (no_byte-format_uint b'[' p refl small) (no_byte-format_uint b']' p refl small) in
    rw
      (
        joined_not_short host port named,
        colon-join_host_port host port,
        splits,
        parse_port-format_uint p small,
        found,
        choose_addresses_lem ips [] [],
      )
      refl
