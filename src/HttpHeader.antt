-- ===== src/HttpHeader.antt =====
-- `net/http.Header` as the code uses it: lists of values under canonical keys (`net/textproto`).
use zipkin_go.Base.{
  ℕ, Bool, true, false, ◌&&◌, ◌||◌, none, some, List, [], ◌∷◌, ◌++◌, Str, codes, leb, ◌==◌,
  if◌then◌else◌, Dict, lookup, insert, lower_byte, upper_byte,
}

abbrev pub HttpHeader : Type 0
HttpHeader = Dict (List Str)

has_byte : Str → ℕ → Bool
has_byte [] c = false
has_byte (b ∷ s) c = b == c || has_byte s c

-- The bytes of a token.
is_token_byte : ℕ → Bool
unfolding has_byte
is_token_byte c =
    (leb b'0' c && leb c b'9')
    || ((leb b'a' c && leb c b'z')
        || ((leb b'A' c && leb c b'Z') || has_byte (codes "!#$%&'*+-.^_`|~") c))

is_token : Str → Bool
unfolding is_token_byte
is_token [] = true
is_token (c ∷ s) = is_token_byte c && is_token s

-- Upper case at the start and behind a dash, lower case elsewhere.
capitalize : Bool → Str → Str
capitalize upper [] = []
capitalize upper (c ∷ s) = (if upper then upper_byte c else lower_byte c) ∷ capitalize (c == b'-') s

-- A key that is no token is left as it is.
unfoldable pub canonical_key : Str → Str
unfolding is_token capitalize
canonical_key k = if is_token k then capitalize true k else k

-- The first value, or the empty text.
unfoldable pub get : HttpHeader → Str → Str
get h k = elim (lookup (canonical_key k) h) [
  | none ↦ []
  | some vs ↦ elim vs [ [] ↦ [] | v ∷ _ ↦ v ]
]

unfoldable pub set : HttpHeader → Str → Str → HttpHeader
set h k v = insert (canonical_key k) (v ∷ []) h

unfoldable pub add : HttpHeader → Str → Str → HttpHeader
add h k v = elim (lookup (canonical_key k) h) [
  | none ↦ insert (canonical_key k) (v ∷ []) h
  | some vs ↦ insert (canonical_key k) (vs ++ v ∷ []) h
]
