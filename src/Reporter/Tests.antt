-- ===== src/Reporter/Tests.antt =====
-- A reporter of numbers at which the theorems on the HTTP reporter are applied.
use zipkin_go.Base.{
  ℕ, ◌+◌, ◌-◌, ◌≤◌, ◌≡◌, ◌≢◌, ◌↔◌, refl, arith, Bool, true, false, Option, none, some, List, [],
  ◌∷◌, ◌++◌, Str, codes, ℤ, pos, length, drop, Outcome, ok, err, panic, Panic, out_of_range, Error,
  invalid_scope,
}
use zipkin_go.Reporter.Http.{
  Config, Request, Sender, waiting, sending, stopped, Reporter, receive_span, end_send,
  start_reporter, new_request, deliver, begin_send,
}
use zipkin_go.Reporter.Http.Steps.{Onward, Run, started, on_span, on_request, on_answer}
use zipkin_go.Reporter.Http.Drains.{Run-drains}
use zipkin_go.Reporter.Http.Delivery.{Run-no_panic, Run-exact}
use zipkin_go.Reporter.Http.InFlight.{receive_all, end_send-receive_all}
use zipkin_go.Reporter.Http.Shutdown.{shut_down, shut_down_lem}

-- Every request is answered with 202; the state counts the requests.
abbrev config : Config ℕ ℕ
config = record {
  url = codes "http://localhost";
  client = λ req w. (ok 202, w + 1);
  batch_interval = pos 10;
  batch_size = pos 2;
  max_backlog = pos 3;
  req_callback = none;
  req_timeout = pos 5;
  serializer = record { serialize = λ spans. ok spans; content_type = codes "application/json" };
}

abbrev no_check : Str → Option Error
no_check url = none

abbrev idle : Reporter ℕ
idle = record { batch = []; next_send = pos 10; pending = false; closed = false; sender = waiting }

abbrev one : Reporter ℕ
one = record idle { batch = 7 ∷ [] }

abbrev two : Reporter ℕ
two = record idle { batch = 7 ∷ 8 ∷ []; next_send = pos 12; pending = true }

abbrev busy : Reporter ℕ
busy = record two { pending = false; sender = sending false (7 ∷ 8 ∷ []) }

abbrev sent : Reporter ℕ
sent = record idle { next_send = pos 12 }

abbrev taken : List ℕ
taken = 7 ∷ 8 ∷ []

takes_two : Run config taken [] 0 two
unfolding start_reporter receive_span zipkin_go.Base.◌+ℤ◌
takes_two = on_span (pos 2) 8 two (on_span (pos 1) 7 one (started (pos 0)) refl refl) refl refl

sends_two : Run config taken taken 0 sent
unfolding zipkin_go.Reporter.Http.next_request end_send
sends_two = on_answer false (7 ∷ 8 ∷ []) sent (on_request busy takes_two refl) refl refl

Run-no_panic_example :
    (2 ≤ 3)
    × (receive_span config (pos 3) 9 two ≢ panic out_of_range)
    × (end_send (ok tt) two ≢ panic out_of_range)
Run-no_panic_example = Run-no_panic config 3 refl takes_two (pos 3) 9 out_of_range

Run-exact_example : taken ≡ taken ++ []
Run-exact_example = Run-exact config 3 refl sends_two

-- Of the three spans that arrive while two are sent, the first two are lost.
end_send-receive_all_example :
    (r1 r2 : Reporter ℕ) × (receive_all config (pos 20) (1 ∷ 2 ∷ 3 ∷ []) busy ≡ ok r1)
    × (end_send (ok tt) r1 ≡ ok r2)
    × (r2.batch ≡ 3 ∷ [])
end_send-receive_all_example =
    end_send-receive_all config 3 refl (pos 20) false (1 ∷ 2 ∷ 3 ∷ []) busy (omega arith) refl

deliver_returns :
    (batch : List ℕ) (w : ℕ) (p : Panic) → (deliver config no_check batch w).0 ≢ panic p
unfolding deliver
deliver_returns batch w p = λ h. cc

shut_down_lem_example :
    (r' : Reporter ℕ) × (w' : ℕ) × (result : Outcome (Unit {0})) × (shut_down config no_check two 0
      ≡ ok (r', w'))
    × (r'.sender ≡ stopped result)
    × ((result ≡ ok tt) ↔ (r'.batch ≡ []))
shut_down_lem_example = shut_down_lem config no_check deliver_returns two 0

Run-drains_example :
    (r' : Reporter ℕ) × Onward [] two taken r'
    × Run config taken taken 0 r'
    × (r'.sender ≡ stopped (ok tt))
    × (r'.batch ≡ [])
Run-drains_example = Run-drains config 3 refl takes_two (λ result h. cc)
