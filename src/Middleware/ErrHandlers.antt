-- ===== src/Middleware/ErrHandlers.antt =====
-- What the client and the server of middleware/http share: the error handlers of transport.go, and the
-- loop that sets the default tags.
use zipkin_go.Base.{◌≡◌, refl, arith, Option, none, some, List, [], ◌∷◌, Str, Dict, ℤ, Error}
use zipkin_go.Strconv.{format_int}
use zipkin_go.Tracer.SpanCalls.{SpanCall, tag_call, tag_error}
use zipkin_go.Tracer.Reports.{is_flush, count_calls}

-- An `ErrHandler`, as the calls that it makes on the span for an error, which may be nil, and a status.
abbrev pub ErrHandler : Type 0
ErrHandler = Option Error → ℤ → List SpanCall

unfoldable pub default_err_handler : (Error → Str) → ErrHandler
default_err_handler error_text (some e) code = tag_call tag_error (error_text e) ∷ []
default_err_handler error_text none code = tag_call tag_error (format_int code) ∷ []

abbrev pub tag_calls : Dict Str → List SpanCall
tag_calls [] = []
tag_calls ((k, v) ∷ tags) = tag_call k v ∷ tag_calls tags

pub count_flushes-tag_calls : (tags : Dict Str) → count_calls is_flush (tag_calls tags) ≡ 0
count_flushes-tag_calls [] = refl
count_flushes-tag_calls ((k, v) ∷ tags) = omega (arith, count_flushes-tag_calls tags)

pub default_err_handler-quiet :
    (error_text : Error → Str) (e : Option Error) (code : ℤ)
    → count_calls is_flush (default_err_handler error_text e code) ≡ 0
unfolding default_err_handler
default_err_handler-quiet error_text (some e) code = refl
default_err_handler-quiet error_text none code = refl
