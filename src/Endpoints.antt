-- ===== src/Endpoints.antt =====
-- endpoint.go: an endpoint from a service name and an address. Looking up a host is the argument
-- `lookup_ip`, as `net.LookupIP`. `net.SplitHostPort` and `strconv.ParseUint(s, 10, 16)` are those of the
-- standard library.
pub mod Laws
pub mod Addresses
mod Tests
use zipkin_go.Base.{
  ℕ, ◌+◌, ◌-◌, ◌*◌, ◌^◌, Bool, true, false, ◌&&◌, ◌||◌, not, Option, none, some, List, [], ◌∷◌,
  ◌++◌, Str, codes, str_eq, take, drop, length, leb, ltb, ◌==◌, if◌then◌else◌, Error, other,
  num_syntax, num_range, Outcome, ok, err, panic, ◌>>=◌,
}
use zipkin_go.Model.Spans.{Endpoint}
use zipkin_go.Model.Json.Encode.{ipv4_prefix}

-- The place of the first byte `c`, and of the last.
abbrev pub index_byte : ℕ → Str → Option ℕ
index_byte c [] = none
index_byte c (b ∷ s) =
    if b == c then some 0 else elim (index_byte c s) [ none ↦ none | some i ↦ some (i + 1) ]

abbrev pub last_index : ℕ → Str → Option ℕ
last_index c [] = none
last_index c (b ∷ s) = elim (last_index c s) [
  | some i ↦ some (i + 1)
  | none ↦ if b == c then some 0 else none
]

abbrev pub has_byte : ℕ → Str → Bool
has_byte c [] = false
has_byte c (b ∷ s) = b == c || has_byte c s

-- An error of `net.SplitHostPort`, which names the text.
abbrev pub addr_error : Str → Str → Error
addr_error host_port why = other (codes "address " ++ (host_port ++ (codes ": " ++ why)))

-- The text has no bracket from the places `j` and `k` on; the port follows the last colon, at `i`.
unfoldable pub check_brackets : Str → Str → ℕ → ℕ → ℕ → Outcome (Str × Str)
check_brackets s host i j k =
    if has_byte b'[' (drop j s)
    then err (addr_error s (codes "unexpected '[' in address"))
    else if has_byte b']' (drop k s)
    then err (addr_error s (codes "unexpected ']' in address"))
    else ok (host, drop (i + 1) s)

-- A host in brackets, of which the closing one is at `end`.
unfoldable pub split_bracketed : Str → ℕ → Option ℕ → Outcome (Str × Str)
unfolding check_brackets
split_bracketed s i none = err (addr_error s (codes "missing ']' in address"))
split_bracketed s i (some end) =
    if end + 1 == length s
    then err (addr_error s (codes "missing port in address"))
    else if end + 1 == i
    then check_brackets s (drop 1 (take end s)) i 1 (end + 1)
    else if str_eq (take 1 (drop (end + 1) s)) (codes ":")
    then err (addr_error s (codes "too many colons in address"))
    else err (addr_error s (codes "missing port in address"))

unfoldable pub split_at_colon : Str → ℕ → Outcome (Str × Str)
unfolding split_bracketed check_brackets
split_at_colon s i =
    if str_eq (take 1 s) (codes "[")
    then split_bracketed s i (index_byte b']' s)
    else if has_byte b':' (take i s)
    then err (addr_error s (codes "too many colons in address"))
    else check_brackets s (take i s) i 0 0

unfoldable pub split_at_last : Str → Option ℕ → Outcome (Str × Str)
unfolding split_at_colon
split_at_last s none = err (addr_error s (codes "missing port in address"))
split_at_last s (some i) = split_at_colon s i

unfoldable pub split_host_port : Str → Outcome (Str × Str)
unfolding split_at_last
split_host_port s = split_at_last s (last_index b':' s)

-- The digits of a number of sixteen bits: the first byte that is none, or digit that makes it too great,
-- ends it.
unfoldable pub scan_port : Str → ℕ → Outcome ℕ
scan_port [] n = ok n
scan_port (c ∷ s) n =
    if leb b'0' c && leb c b'9'
    then (let rest = scan_port s (n * 10 + (c - 48)) in
        if ltb (n * 10 + (c - 48)) (2 ^ 16) then rest else err num_range)
    else err num_syntax

unfoldable pub parse_port : Str → Outcome ℕ
unfolding scan_port
parse_port [] = err num_syntax
parse_port (c ∷ s) = scan_port (c ∷ s) 0

-- `To4` and `To16` of an address; no bytes stand for nil.
unfoldable pub to_4 : List ℕ → List ℕ
to_4 ip =
    if length ip == 4
    then ip
    else if length ip == 16 && str_eq (take 12 ip) ipv4_prefix
    then drop 12 ip
    else []

unfoldable pub to_16 : List ℕ → List ℕ
to_16 ip = if length ip == 4 then ipv4_prefix ++ ip else if length ip == 16 then ip else []

abbrev pub is_nil : List ℕ → Bool
is_nil ip = length ip == 0

-- The address where the field was nil, and the field otherwise.
abbrev pub keep : List ℕ → List ℕ → List ℕ
keep old ip = if is_nil old then ip else old

-- One round of the loop, on the fields for IPv4 and IPv6.
unfoldable pub take_address : List ℕ → List ℕ × List ℕ → List ℕ × List ℕ
unfolding to_4 to_16
take_address ip (four, six) =
    if is_nil (to_4 ip) then (four, keep six (to_16 ip)) else (keep four (to_4 ip), six)

unfoldable pub choose_addresses : List (List ℕ) → List ℕ × List ℕ → List ℕ × List ℕ
unfolding take_address
choose_addresses [] found = found
choose_addresses (ip ∷ ips) found =
    let (four, six) = take_address ip found in
    let rest = choose_addresses ips (four, six) in
    if not (is_nil four) && not (is_nil six) then (four, six) else rest

unfoldable pub wrap_lookup : (Error → Str) → Outcome (List (List ℕ)) → Outcome (List (List ℕ))
wrap_lookup error_text (ok ips) = ok ips
wrap_lookup error_text (err e) = err (other (codes "host lookup failure: " ++ error_text e))
wrap_lookup error_text (panic p) = panic p

unfoldable pub with_port : Str → Str
with_port host_port = if has_byte b':' host_port then host_port else host_port ++ codes ":0"

unfoldable pub lookup_endpoint :
    (Error → Str) → (Str → Outcome (List (List ℕ))) → Str → Str → Outcome Endpoint
unfolding split_host_port parse_port wrap_lookup choose_addresses with_port
lookup_endpoint error_text lookup_ip service_name host_port = do
  (host, port) ← split_host_port (with_port host_port)
  p ← parse_port port
  ips ← wrap_lookup error_text (lookup_ip host)
  let (four, six) = choose_addresses ips ([], [])
  ok (record { service_name = service_name; ipv4 = four; ipv6 = six; port = p })

-- `none` is a nil endpoint.
unfoldable pub new_endpoint :
    (Error → Str) → (Str → Outcome (List (List ℕ))) → Str → Str → Outcome (Option Endpoint)
unfolding lookup_endpoint
new_endpoint error_text lookup_ip service_name host_port =
    if str_eq host_port [] || str_eq host_port (codes ":0")
    then (if str_eq service_name []
        then ok none
        else ok (some (record { service_name = service_name; ipv4 = []; ipv6 = []; port = 0 })))
    else do e ← lookup_endpoint error_text lookup_ip service_name host_port; ok (some e)
