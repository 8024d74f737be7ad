-- ===== src/Receivers/SynchronizedBatched/Tally.antt =====
-- What becomes of each message of the poller of batches behind a mutex
-- (src/receivers/synchronize_batched).
use messagebus.Base.{
  ℕ, ◌+◌, ◌≡◌, refl, ◌∙◌, inl, inr, Bool, Option, none, some, List, [], ◌∷◌, arith, Bool-cases, leb,
  length, is_empty, ℕ-eq,
}
use messagebus.Event.{
  Event, synchronized, flushed, ready, init, flush, sync, close, stats, Request, action, request,
}
use messagebus.Receivers.Batch.{
  Buffer, push, Effect, run_batch, report_ready, report_flushed, run_sync, close_channel, panics,
  step, process_batch_result,
}
use messagebus.Receivers.Batch.Counted.{of_mids, of_response, carrying-process_batch_result}
use messagebus.Receivers.Unordered.Moves.{pick}
use messagebus.Receivers.Unordered.Tally.{one, carrying, carrying-append, carrying-pick}
use messagebus.Receivers.SynchronizedBatched.{
  BatchSynchronizedHandler, Poller, receiving, synchronizing, stopped, crashed, Move, poll, lock,
  reply, Running, apply, apply_all, stepped, receive, turn, handled, replied, move, moves,
}

module _ (handler : BatchSynchronizedHandler) (b : ℕ) (k : ℕ) where
  open handler use {M, R, E, S, State}

  abbrev pub of_request : Request M → ℕ
  of_request (request mid msg req) = one k mid
  of_request (action a) = 0

  abbrev pub of_batch : Buffer M → ℕ
  of_batch c = of_mids k c.mids

  -- How often the mid `k` stands anywhere: in the channel, in the buffer, in a batch, in an answer that a
  -- task has still to send, in an answer.
  abbrev pub tally : Running handler → ℕ
  tally u =
      carrying of_request u.queue
      + of_batch u.buffer
      + carrying of_batch u.waiting
      + carrying (carrying (of_response {S = S} {R = R} {E = E} k)) u.replying
      + carrying (of_response {S = S} {R = R} {E = E} k) u.sent

  -- What a turn of the loop gave to tasks.
  abbrev of_effects : List (Effect M) → ℕ
  of_effects [] = 0
  of_effects (run_batch mids msgs ∷ es) = of_mids k mids + of_effects es
  of_effects (e ∷ es) = of_effects es

  tally-apply_all :
      (es : List (Effect M)) (u : Running handler)
      → tally (apply_all handler es u) ≡ tally u + of_effects es
  unfolding apply_all apply
  tally-apply_all [] u = omega arith
  tally-apply_all (run_batch mids msgs ∷ es) u = omega (
    arith,
    tally-apply_all es (apply handler (run_batch mids msgs) u),
    carrying-append of_batch u.waiting (record { mids = mids; msgs = msgs } ∷ []),
  )
  tally-apply_all (report_ready ∷ es) u = omega (
    arith,
    tally-apply_all es (apply handler report_ready u),
    carrying-append (of_response {S = S} {R = R} {E = E} k) u.sent (ready ∷ []),
  )
  tally-apply_all (report_flushed ∷ es) u = omega (
    arith,
    tally-apply_all es (apply handler report_flushed u),
    carrying-append (of_response {S = S} {R = R} {E = E} k) u.sent (flushed ∷ []),
  )
  tally-apply_all (run_sync ∷ es) u = tally-apply_all es (apply handler run_sync u)
  tally-apply_all (close_channel ∷ es) u = tally-apply_all es (apply handler close_channel u)
  tally-apply_all (panics ∷ es) u = tally-apply_all es (apply handler panics u)

  -- A turn keeps what the request and the buffer hold, in the buffer or in what it gives to tasks.
  abbrev Keeps : Request M → Buffer M → Option (Buffer M × List (Effect M)) → Type 0
  Keeps q c none = of_request q ≡ 0
  Keeps q c (some (c', es)) = of_batch c' + of_effects es ≡ of_request q + of_batch c

  step-Keeps : (q : Request M) (c : Buffer M) → Keeps q c (step b q c)
  unfolding step push
  step-Keeps (request mid msg req) c =
      let longer = carrying-append (λ (m : ℕ × Bool). one k m.0) c.mids ((mid, req) ∷ []) in
      elim (Bool-cases (leb b (length (push mid msg req c).mids))) [
        | inl full ↦ rw full (omega (arith, longer))
        | inr more ↦ rw more (omega (arith, longer))
      ]
  step-Keeps (action (init id)) c = omega arith
  step-Keeps (action close) c = omega arith
  step-Keeps (action flush) c = elim (Bool-cases (is_empty c.mids)) [
    | inl none_left ↦ rw none_left (omega arith)
    | inr some_left ↦ rw some_left (omega arith)
  ]
  step-Keeps (action sync) c = omega arith
  step-Keeps (action stats) c = refl

  tally-stepped :
      (q : Request M) (u : Running handler) (o : Option (Buffer M × List (Effect M)))
      → Keeps q u.buffer o
      → tally (stepped handler u o) ≡ of_request q + tally u
  tally-stepped q u none h = omega (arith, h)
  tally-stepped q u (some (c, es)) h =
      omega (arith, h, tally-apply_all es (record u { buffer = c }))

  tally-receive :
      (qs : List (Request M)) (u : Running handler)
      → u.queue ≡ qs
      → tally (receive handler b qs u) ≡ tally u
  unfolding receive
  tally-receive [] u q = elim (Bool-cases u.closed) [
    | inl shut ↦ simp shut
    | inr still ↦ simp still
  ]
  tally-receive (r ∷ qs) u q =
      tally-stepped r (record u { queue = qs }) (step b r u.buffer) (step-Keeps r u.buffer)
      ∙ rw q (omega arith)

  tally-turn :
      (p : Poller) (u : Running handler) → u.poller ≡ p → tally (turn handler b p u) ≡ tally u
  unfolding turn
  tally-turn receiving u e = tally-receive u.queue u refl
  tally-turn synchronizing u e =
      omega (
        arith,
        carrying-append (of_response {S = S} {R = R} {E = E} k) u.sent (synchronized _ ∷ []),
      )
  tally-turn stopped u e = refl
  tally-turn crashed u e = refl

  tally-handled :
      (i : ℕ) (u : Running handler) (o : Option (Buffer M × List (Buffer M)))
      → pick i u.waiting ≡ o
      → tally (handled handler u o) ≡ tally u
  unfolding handled
  tally-handled i u none e = refl
  tally-handled i u (some (c, rest)) e =
      let resp = (handler.handle c.msgs u.state).1 in
      omega (
        arith,
        carrying-pick of_batch i u.waiting e,
        carrying-process_batch_result S R E k resp c.mids,
        carrying-append (carrying (of_response {S = S} {R = R} {E = E} k)) u.replying
            (process_batch_result resp c.mids ∷ []),
      )

  tally-replied :
      (i : ℕ) (u : Running handler) (o : Option (List (Event S R E) × List (List (Event S R E))))
      → pick i u.replying ≡ o
      → tally (replied handler u o) ≡ tally u
  tally-replied i u none e = refl
  tally-replied i u (some ([], rest)) e =
      omega (arith, carrying-pick (carrying (of_response {S = S} {R = R} {E = E} k)) i u.replying e)
  tally-replied i u (some (ev ∷ evs, rest)) e = omega (
    arith,
    carrying-pick (carrying (of_response {S = S} {R = R} {E = E} k)) i u.replying e,
    carrying-append (of_response {S = S} {R = R} {E = E} k) u.sent (ev ∷ []),
  )

  tally-move : (x : Move) (u : Running handler) → tally (move handler b x u) ≡ tally u
  unfolding move
  tally-move poll u = tally-turn u.poller u refl
  tally-move (lock i) u = tally-handled i u _ refl
  tally-move (reply i) u = tally-replied i u _ refl

  -- In whatever order the poller moves and the tasks get the mutex, and however many replies the handler
  -- gives for a batch, a mid stands as often in the channel, in the buffer, in the batches and in the
  -- answers together as it did at the start: a message that was sent once is answered at most once, and
  -- until it is answered it is still on its way.
  pub tally-moves_of_locks :
      (xs : List Move) (u : Running handler) → tally (moves handler b xs u) ≡ tally u
  unfolding moves
  tally-moves_of_locks [] u = refl
  tally-moves_of_locks (x ∷ xs) u = tally-moves_of_locks xs (move handler b x u) ∙ tally-move x u
