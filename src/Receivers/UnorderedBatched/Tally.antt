-- ===== src/Receivers/UnorderedBatched/Tally.antt =====
-- What becomes of each message of the poller of batches (src/receivers/buffer_unordered_batched), and of
-- those that it keeps back when it stops.
use messagebus.Base.{
  ℕ, ◌+◌, ◌≡◌, refl, ◌∙◌, inl, inr, Bool, Option, none, some, List, [], ◌∷◌, arith, Bool-cases,
  is_empty, leb, length, ℕ-eq,
}
use messagebus.Message.{Result}
use messagebus.Event.{
  Event, synchronized, flushed, ready, init, flush, sync, close, stats, Request, action, request,
}
use messagebus.Receivers.Batch.{Buffer, push, process_batch_result}
use messagebus.Receivers.Batch.Counted.{of_mids, of_response, carrying-process_batch_result}
use messagebus.Receivers.Unordered.Moves.{Move, poll, finish, reply, pick, Types}
use messagebus.Receivers.Unordered.Tally.{one, carrying, carrying-append, carrying-pick}
use messagebus.Receivers.UnorderedBatched.{
  Poller, receiving, acquiring, launching, flushing, syncing, synchronizing, stopped, crashed,
  Running, store, start_flush, receive, full_with, launched_with, flushed_with, syncing_with, turn,
  finished, replied, move, moves,
}

module _ (types : Types) (b n : ℕ) (k : ℕ) where
  open types use {M, R, E, S, semaphore}

  abbrev pub of_request : Request M → ℕ
  of_request (request mid msg req) = one k mid
  of_request (action a) = 0

  abbrev pub of_buffer : Buffer M → ℕ
  of_buffer c = of_mids k c.mids

  abbrev pub of_poller : Poller M → ℕ
  of_poller (launching c) = of_buffer c
  of_poller _ = 0

  -- How often the mid `k` stands anywhere: in the channel, at the poller, in its buffer, in a batch, in
  -- an answer that a task has still to send, in an answer.
  abbrev pub tally : Running types → ℕ
  tally u =
      carrying of_request u.queue
      + of_poller u.poller
      + of_buffer u.buffer
      + carrying of_buffer u.working
      + carrying (carrying (of_response {S = S} {R = R} {E = E} k)) u.replying
      + carrying (of_response {S = S} {R = R} {E = E} k) u.sent

  tally-store :
      (mid : ℕ) (msg : M) (req : Bool) (u : Running types)
      → u.poller ≡ receiving
      → tally (store types b mid msg req u) ≡ one k mid + tally u
  unfolding store push
  tally-store mid msg req u e =
      elim (Bool-cases (leb b (length (push mid msg req u.buffer).mids))) [
        | inl full ↦
            rw (full, e)
              (omega (
                arith,
                carrying-append (λ (m : ℕ × Bool). one k m.0) u.buffer.mids ((mid, req) ∷ []),
              ))
        | inr more ↦
            rw (more, e)
              (omega (
                arith,
                carrying-append (λ (m : ℕ × Bool). one k m.0) u.buffer.mids ((mid, req) ∷ []),
              ))
      ]

  tally-start_flush :
      (u : Running types) → u.poller ≡ receiving → tally (start_flush types u) ≡ tally u
  unfolding start_flush
  tally-start_flush u e = elim (Bool-cases (is_empty u.buffer.mids)) [
    | inl none_left ↦ rw (none_left, e) refl
    | inr some_left ↦ rw (some_left, e) (omega arith)
  ]

  tally-receive :
      (qs : List (Request M)) (u : Running types)
      → u.queue ≡ qs
      → u.poller ≡ receiving
      → tally (receive types b qs u) ≡ tally u
  unfolding receive
  tally-receive [] u q e = elim (Bool-cases u.closed) [
    | inl shut ↦ simp (shut, e)
    | inr still ↦ simp still
  ]
  tally-receive (request mid msg req ∷ qs) u q e =
      tally-store mid msg req (record u { queue = qs }) e ∙ rw q (omega arith)
  tally-receive (action (init id) ∷ qs) u q e =
      rw (q, e)
        (omega (arith, carrying-append (of_response {S = S} {R = R} {E = E} k) u.sent (ready ∷ [])))
  tally-receive (action close ∷ qs) u q e = rw (q, e) (omega arith)
  tally-receive (action flush ∷ qs) u q e =
      tally-start_flush (record u { queue = qs }) e ∙ rw q (omega arith)
  tally-receive (action sync ∷ qs) u q e = rw (q, e) (omega arith)
  tally-receive (action stats ∷ qs) u q e = rw (q, e) (omega arith)

  tally-full_with :
      (u : Running types) (o : Option semaphore.State)
      → u.poller ≡ acquiring
      → tally (full_with types u o) ≡ tally u
  tally-full_with u none e = refl
  tally-full_with u (some s) e =
      rw e (omega (arith, carrying-append of_buffer u.working (u.buffer ∷ [])))

  tally-launched_with :
      (c : Buffer M) (u : Running types) (o : Option semaphore.State)
      → u.poller ≡ launching c
      → tally (launched_with types c u o) ≡ tally u
  tally-launched_with c u none e = refl
  tally-launched_with c u (some s) e =
      rw e (omega (arith, carrying-append of_buffer u.working (c ∷ [])))

  tally-flushed_with :
      (m : ℕ) (u : Running types) (o : Option semaphore.State)
      → u.poller ≡ flushing
      → tally (flushed_with types m u o) ≡ tally u
  tally-flushed_with m u none e = refl
  tally-flushed_with m u (some s) e =
      rw e (
        omega
          (arith, carrying-append (of_response {S = S} {R = R} {E = E} k) u.sent (flushed ∷ [])))

  tally-syncing_with :
      (u : Running types) (o : Option semaphore.State)
      → u.poller ≡ syncing
      → tally (syncing_with types u o) ≡ tally u
  tally-syncing_with u none e = refl
  tally-syncing_with u (some s) e = rw e refl

  tally-turn :
      (res : Result (Unit {0}) E) (p : Poller M) (u : Running types)
      → u.poller ≡ p
      → tally (turn types b n res p u) ≡ tally u
  unfolding turn
  tally-turn res receiving u e = tally-receive u.queue u refl e
  tally-turn res acquiring u e = tally-full_with u _ e
  tally-turn res (launching c) u e = tally-launched_with c u _ e
  tally-turn res flushing u e = tally-flushed_with _ u _ e
  tally-turn res syncing u e = tally-syncing_with u _ e
  tally-turn res synchronizing u e = rw e (
      omega (
        arith,
        carrying-append (of_response {S = S} {R = R} {E = E} k) u.sent (synchronized _ ∷ []),
      ))
  tally-turn res stopped u e = refl
  tally-turn res crashed u e = refl

  tally-finished :
      (i : ℕ) (res : Result (List R) E) (u : Running types)
      (o : Option (Buffer M × List (Buffer M)))
      → pick i u.working ≡ o
      → tally (finished types res u o) ≡ tally u
  unfolding finished
  tally-finished i res u none e = refl
  tally-finished i res u (some (c, rest)) e = omega (
    arith,
    carrying-pick of_buffer i u.working e,
    carrying-process_batch_result S R E k res c.mids,
    carrying-append (carrying (of_response {S = S} {R = R} {E = E} k)) u.replying
        (process_batch_result res c.mids ∷ []),
  )

  tally-replied :
      (i : ℕ) (u : Running types) (o : Option (List (Event S R E) × List (List (Event S R E))))
      → pick i u.replying ≡ o
      → tally (replied types u o) ≡ tally u
  tally-replied i u none e = refl
  tally-replied i u (some ([], rest)) e =
      omega (arith, carrying-pick (carrying (of_response {S = S} {R = R} {E = E} k)) i u.replying e)
  tally-replied i u (some (ev ∷ evs, rest)) e = omega (
    arith,
    carrying-pick (carrying (of_response {S = S} {R = R} {E = E} k)) i u.replying e,
    carrying-append (of_response {S = S} {R = R} {E = E} k) u.sent (ev ∷ []),
  )

  tally-move : (x : Move (List R) E) (u : Running types) → tally (move types b n x u) ≡ tally u
  unfolding move
  tally-move (poll res) u = tally-turn res u.poller u refl
  tally-move (finish i res) u = tally-finished i res u _ refl
  tally-move (reply i) u = tally-replied i u _ refl

  -- In whatever order the poller and the tasks move, and however many replies the handler gives for a
  -- batch, a mid stands as often in the channel, at the poller, in its buffer, in the batches and in the
  -- answers together as it did at the start: a message that was sent once is answered at most once, and
  -- until it is answered it is still on its way.
  pub tally-moves_of_batches :
      (xs : List (Move (List R) E)) (u : Running types) → tally (moves types b n xs u) ≡ tally u
  unfolding moves
  tally-moves_of_batches [] u = refl
  tally-moves_of_batches (x ∷ xs) u =
      tally-moves_of_batches xs (move types b n x u) ∙ tally-move x u
