-- ===== src/Middleware/ResponseWriter.antt =====
-- The interceptor of middleware/http/server.go: what it counts, and which optional interfaces of the
-- writer it passes on.
use zipkin_go.Base.{
  refl, ◌++◌, All, ℕ, ◌+◌, ◌%◌, ◌^◌, ◌≡◌, arith, Bool, true, false, ◌||◌, List, [], ◌∷◌, ℤ,
}

-- The calls on the wrapped writer. A write says how many bytes it was
-- passed, and how many of them the writer took. `ReadFrom`, which
-- `io.Copy` calls where it is offered, is the writer's own: it goes past the interceptor.
pub data ResponseCall : Type 0 where
  write_header : ℤ → ResponseCall
  write_body : ℕ → ℕ → ResponseCall
  read_from : ℕ → ResponseCall

pub record RwInterceptor : Type 0 where
  pub size : ℕ
  pub status_code : ℤ

unfoldable pub intercept : List ResponseCall → RwInterceptor → RwInterceptor
intercept [] ri = ri
intercept (write_header i ∷ calls) ri = intercept calls (record ri { status_code = i })
intercept (write_body passed n ∷ calls) ri =
    intercept calls (record ri { size = (ri.size + n) % 2 ^ 64 })
intercept (read_from n ∷ calls) ri = intercept calls ri

pub intercept-append :
    (xs ys : List ResponseCall) (ri : RwInterceptor)
    → intercept (xs ++ ys) ri ≡ intercept ys (intercept xs ri)
unfolding intercept
intercept-append [] ys ri = refl
intercept-append (write_header i ∷ xs) ys ri = intercept-append xs ys _
intercept-append (write_body passed n ∷ xs) ys ri = intercept-append xs ys _
intercept-append (read_from n ∷ xs) ys ri = intercept-append xs ys _

-- A call of another method of the writer than `WriteHeader`.
abbrev pub IsNoHeader : ResponseCall → Type 0
IsNoHeader (write_header i) = ⊥
IsNoHeader _ = Unit

pub intercept-status_code :
    (calls : List ResponseCall) (ri : RwInterceptor)
    → All IsNoHeader calls
    → (intercept calls ri).status_code ≡ ri.status_code
unfolding intercept
intercept-status_code [] ri none_sent = refl
intercept-status_code (write_header i ∷ calls) ri none_sent = absurd (none_sent.0)
intercept-status_code (write_body passed n ∷ calls) ri none_sent =
    intercept-status_code calls _ none_sent.1
intercept-status_code (read_from n ∷ calls) ri none_sent =
    intercept-status_code calls ri none_sent.1

pub data Interface : Type 0 where
  hijacker close_notifier pusher flusher reader_from : Interface

-- The cases of the switch for a writer that is no `Hijacker`: whether it is a `CloseNotifier`, a
-- `Pusher`, a `Flusher` and a `ReaderFrom`, and the interfaces of the struct that is returned beside
-- `http.ResponseWriter`.
unfoldable pub wrap_plain : Bool → Bool → Bool → Bool → List Interface
wrap_plain false false false false = []
wrap_plain false false false true = reader_from ∷ []
wrap_plain false false true false = flusher ∷ []
wrap_plain false false true true = flusher ∷ reader_from ∷ []
wrap_plain false true false false = pusher ∷ []
wrap_plain false true false true = pusher ∷ reader_from ∷ []
wrap_plain false true true false = pusher ∷ flusher ∷ []
wrap_plain false true true true = pusher ∷ flusher ∷ reader_from ∷ []
wrap_plain true false false false = close_notifier ∷ []
wrap_plain true false false true = close_notifier ∷ reader_from ∷ []
wrap_plain true false true false = close_notifier ∷ flusher ∷ []
wrap_plain true false true true = close_notifier ∷ flusher ∷ reader_from ∷ []
wrap_plain true true false false = close_notifier ∷ pusher ∷ []
wrap_plain true true false true = close_notifier ∷ pusher ∷ reader_from ∷ []
wrap_plain true true true false = close_notifier ∷ pusher ∷ flusher ∷ []
wrap_plain true true true true = close_notifier ∷ pusher ∷ flusher ∷ reader_from ∷ []

-- The cases for a writer that is one.
unfoldable pub wrap_hijacker : Bool → Bool → Bool → Bool → List Interface
wrap_hijacker false false false false = hijacker ∷ []
wrap_hijacker false false false true = hijacker ∷ reader_from ∷ []
wrap_hijacker false false true false = hijacker ∷ flusher ∷ []
wrap_hijacker false false true true = hijacker ∷ flusher ∷ reader_from ∷ []
wrap_hijacker false true false false = hijacker ∷ pusher ∷ []
wrap_hijacker false true false true = hijacker ∷ pusher ∷ reader_from ∷ []
wrap_hijacker false true true false = hijacker ∷ pusher ∷ flusher ∷ []
wrap_hijacker false true true true = hijacker ∷ pusher ∷ flusher ∷ reader_from ∷ []
wrap_hijacker true false false false = hijacker ∷ close_notifier ∷ []
wrap_hijacker true false false true = hijacker ∷ close_notifier ∷ reader_from ∷ []
wrap_hijacker true false true false = hijacker ∷ close_notifier ∷ flusher ∷ []
wrap_hijacker true false true true = hijacker ∷ close_notifier ∷ flusher ∷ reader_from ∷ []
wrap_hijacker true true false false = hijacker ∷ close_notifier ∷ pusher ∷ []
wrap_hijacker true true false true = hijacker ∷ close_notifier ∷ pusher ∷ reader_from ∷ []
wrap_hijacker true true true false = hijacker ∷ close_notifier ∷ pusher ∷ flusher ∷ []
wrap_hijacker true true true true = hijacker ∷ close_notifier ∷ pusher ∷ flusher ∷ reader_from ∷ []

-- The whole switch. Its default case is never reached.
unfoldable pub wrap : Bool → Bool → Bool → Bool → Bool → List Interface
unfolding wrap_plain wrap_hijacker
wrap false = wrap_plain
wrap true = wrap_hijacker

abbrev pub is_interface : Interface → Interface → Bool
is_interface hijacker hijacker = true
is_interface close_notifier close_notifier = true
is_interface pusher pusher = true
is_interface flusher flusher = true
is_interface reader_from reader_from = true
is_interface _ _ = false

abbrev pub has_interface : Interface → List Interface → Bool
has_interface i [] = false
has_interface i (j ∷ js) = is_interface i j || has_interface i js

-- Whether the writer has an interface.
abbrev pub offers : Bool → Bool → Bool → Bool → Bool → Interface → Bool
offers i0 i1 i2 i3 i4 hijacker = i0
offers i0 i1 i2 i3 i4 close_notifier = i1
offers i0 i1 i2 i3 i4 pusher = i2
offers i0 i1 i2 i3 i4 flusher = i3
offers i0 i1 i2 i3 i4 reader_from = i4

-- The response writer that the next handler gets has exactly those of the five optional interfaces
-- that the server's writer has.
pub has_interface-wrap :
    (i0 i1 i2 i3 i4 : Bool) (i : Interface)
    → has_interface i (wrap i0 i1 i2 i3 i4) ≡ offers i0 i1 i2 i3 i4 i
unfolding wrap
has_interface-wrap i0 i1 i2 i3 i4 i = ground arith
