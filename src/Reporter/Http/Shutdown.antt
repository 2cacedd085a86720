-- ===== src/Reporter/Http/Shutdown.antt =====
-- What `Close` waits for and returns.
use zipkin_go.Base.{
  ◌≡◌, ◌≢◌, ◌↔◌, inl, inr, refl, arith, Bool, true, false, Option, List, [], ◌∷◌, Str, length, drop,
  Outcome, Outcome-cases, ok, err, panic, Panic, ◌>>=◌, Error, if◌then◌else◌,
}
use zipkin_go.Reporter.Http.{Config, stopped, Reporter, after_send, begin_send, end_send, deliver}
use zipkin_go.Reporter.Http.Steps.{slice_from_lem}

module _ {A W : Type 0} (c : Config A W) (check_url : Str → Option Error) where
  -- The whole of `sendBatch`, where `loop` no longer runs.
  unfoldable pub send_batch : Bool → Reporter A → W → Outcome (Reporter A × W)
  unfolding begin_send end_send deliver
  send_batch last r w = elim r.batch [
    | [] ↦ ok (begin_send last r, w)
    | a ∷ batch ↦
        (let (result, w') = deliver c check_url (a ∷ batch) w in
          (do r' ← end_send result (begin_send last r); ok (r', w')))
  ]

  -- `sendLoop` from its wait at the channel, once `loop` has closed it: the request that is still in the
  -- channel, then the last send.
  unfoldable pub shut_down : Reporter A → W → Outcome (Reporter A × W)
  unfolding send_batch
  shut_down r w =
      if r.pending
      then (do (r', w') ← send_batch false (record r { pending = false }) w; send_batch true r' w')
      else send_batch true r w

  module _
      (returns : (batch : List A) (w : W) (p : Panic)
        → (deliver c check_url batch w).0 ≢ panic p) where
    -- An answer empties the batch, an error keeps it.
    abbrev Sent : Bool → Reporter A → Outcome (Unit {0}) → Type 0
    Sent last r result = (r.sender ≡ after_send last result) × ((result ≡ ok tt) ↔ (r.batch ≡ []))

    drop_whole : (xs : List A) → drop (length xs) xs ≡ []
    drop_whole [] = refl
    drop_whole (x ∷ xs) = drop_whole xs

    send_batch-cases :
        (last : Bool) (b : List A) (r : Reporter A) (w : W)
        → (r' : Reporter A) × (w' : W) × (result : Outcome (Unit {0})) × (send_batch last
              (record r { batch = b })
              w
            ≡ ok (r', w'))
          × Sent last r' result
    unfolding send_batch begin_send end_send
    send_batch-cases last [] r w = (
      record r { batch = []; sender = after_send last (ok tt) },
      w,
      ok tt,
      refl,
      (refl, ((λ _. refl), λ _. refl)),
    )
    send_batch-cases last (a ∷ b) r w =
        let (x, w') = deliver c check_url (a ∷ b) w in
        elim (Outcome-cases x (λ p. returns (a ∷ b) w p)) [
          | inl (_, e) ↦ (
            record r { batch = []; sender = after_send last (ok tt) },
            w',
            ok tt,
            rw (e, slice_from_lem (length (a ∷ b)) (a ∷ b) (omega arith), drop_whole b) refl,
            (refl, ((λ _. refl), λ _. refl)),
          )
          | inr (x', e) ↦ (
            record r { batch = a ∷ b; sender = after_send last (err x') },
            w',
            err x',
            rw e refl,
            (refl, ((λ h. cc), λ h. cc)),
          )
        ]

    send_batch_lem :
        (last : Bool) (r : Reporter A) (w : W)
        → (r' : Reporter A) × (w' : W) × (result : Outcome (Unit {0})) × (send_batch last r w
            ≡ ok (r', w'))
          × Sent last r' result
    send_batch_lem last r w = send_batch-cases last r.batch r w

    shut_down-cases :
        (p : Bool) (r : Reporter A) (w : W)
        → (r' : Reporter A) × (w' : W) × (result : Outcome (Unit {0})) × (shut_down
              (record r { pending = p })
              w
            ≡ ok (r', w'))
          × (r'.sender ≡ stopped result)
          × ((result ≡ ok tt) ↔ (r'.batch ≡ []))
    unfolding shut_down after_send
    shut_down-cases true r w =
        let (r1, w1, x, run, _) = send_batch_lem false (record r { pending = false }) w in
        let (r2, w2, result, run', sent) = send_batch_lem true r1 w1 in
        (r2, w2, result, rw run run', sent.0, sent.1)
    shut_down-cases false r w =
        let (r2, w2, result, run', sent) = send_batch_lem true (record r { pending = false }) w in
        (r2, w2, result, run', sent.0, sent.1)

    -- If no request panics, `Close` returns, and it returns nil exactly if no span is left in the batch:
    -- an error of the last send comes with the spans that were not sent.
    pub shut_down_lem :
        (r : Reporter A) (w : W)
        → (r' : Reporter A) × (w' : W) × (result : Outcome (Unit {0})) × (shut_down r w
            ≡ ok (r', w'))
          × (r'.sender ≡ stopped result)
          × ((result ≡ ok tt) ↔ (r'.batch ≡ []))
    shut_down_lem r w = shut_down-cases r.pending r w
