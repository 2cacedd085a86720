-- ===== src/Reporter/Log.antt =====
-- reporter/log/log.go: each span is printed, if it can be marshalled. A logger is the list of what it has
-- printed.
use zipkin_go.Base.{Option, none, some, List, [], ◌∷◌, ◌++◌, Str, codes, Outcome, ok, err, panic}

-- `standard` is the logger that writes to the standard error.
unfoldable pub new_log_reporter : List Str → Option (List Str) → List Str
new_log_reporter standard none = standard
new_log_reporter standard (some l) = l

-- `now` is the text of the time of the call, and the third argument what `json.MarshalIndent` returns.
unfoldable pub print_span : Str → List Str → Outcome Str → Outcome (List Str)
print_span now logger (ok b) = ok (logger ++ (now ++ (codes ":\n" ++ (b ++ codes "\n\n"))) ∷ [])
print_span now logger (err e) = ok logger
print_span now logger (panic p) = panic p

unfoldable pub send_log : {A : Type 0} → (A → Outcome Str) → Str → A → List Str → Outcome (List Str)
unfolding print_span
send_log marshal_indent now s logger = print_span now logger (marshal_indent s)

unfoldable pub close_log : List Str → Outcome (Unit {0}) × List Str
close_log logger = (ok tt, logger)
