-- ===== src/Wrapper.antt =====
-- The typed receiver of src/receiver.rs: the types that `ReceiverWrapper` accepts, its waiters, and
-- the loop of `start_polling_events` over the events of the inner receiver.
pub mod Accept
pub mod Laws
pub mod Tests
use messagebus.Base.{
  ℕ, ◌+◌, ◌^◌, Bool, true, false, Option, none, some, List, [], ◌∷◌, ◌++◌, ltb, sub64, ◌==◌, ℕ-eq,
  if◌then◌else◌,
}
use messagebus.Message.{Message, Result, ok, err, map_ok, map_error}
use messagebus.Errors.{GenericError, StdSyncSendError, Error, add_listener_error, into_dyn}
use messagebus.Event.{
  Event, Failure, response, synchronized, batch_complete, error, init_failed, stats_of, flushed,
  exited, ready, pause,
}
use messagebus.Context.{Context}
use messagebus.Slab.{Slab}

-- The wake-ups sent to the `Notify` fields of a context.
pub data Notify : Type 0 where
  on_flushed on_synchronized on_closed on_ready on_idle on_response : Notify

pub data Wake : Type 0 where
  notify_one : Notify → Wake
  notify_waiters : Notify → Wake

-- A waiter holds the sender of a oneshot channel, given here by the channel's number.
pub data Waiter : Type 0 where
  with_error_type : ℕ → Waiter
  without_error_type : ℕ → Waiter
  boxed : ℕ → Waiter
  boxed_with_error : ℕ → Waiter

abbrev pub channel : Waiter → ℕ
channel (with_error_type ch) = ch
channel (without_error_type ch) = ch
channel (boxed ch) = ch
channel (boxed_with_error ch) = ch

-- What the loop does next, or that it has panicked.
pub data Flow (A : Type 0) : Type 0 where
  goes_on : A → Flow A
  stops : A → Flow A
  panicked : Flow A

-- The value that is sent, in the type that the waiter's channel has.
pub data Answer (S R E : Type 0) : Type 0 where
  typed : Result R (Failure S E) → Answer S R E
  typed_dyn : Result R (Failure S GenericError) → Answer S R E
  boxed_dyn : Result Message (Failure S GenericError) → Answer S R E
  boxed_err : Result Message (Failure S E) → Answer S R E

-- `mid | 1 << (u64::BITS - 1)`, on a word: the mid of a request.
unfoldable pub request_mid : ℕ → ℕ
request_mid mid = if ltb mid (2 ^ 63) then mid + 2 ^ 63 else mid

-- The type parameters of `ReceiverWrapper<M, R, E, S>` that the loop depends on, with the traits
-- that they implement, and the slab. `S` is the type of serialization errors.
pub record Params : Type 1 where
  pub S : Type 0
  pub R : Type 0
  pub E : Type 0
  pub std : StdSyncSendError E
  pub into_boxed : R → Message
  pub slab : Slab Waiter

module _ (params : Params) where
  open params use {S, R, E, std, into_boxed, slab}

  -- The wrapper as its polling task sees it: `sent` lists the values sent on oneshot channels, and
  -- `wakes` the wake-ups, newest last.
  pub record Wrapper : Type 0 where
    pub context : Context
    pub waiters : slab.Store
    pub sent : List (ℕ × Answer S R E)
    pub wakes : List Wake

  unfoldable pub add_response_listener : Waiter → Wrapper → Result (ℕ × Wrapper) (Failure S E)
  add_response_listener waiter w = elim (slab.insert waiter w.waiters) [
    | none ↦ err add_listener_error
    | some (mid, waiters) ↦ ok (mid, record w { waiters = waiters })
  ]

  unfoldable pub answer : Waiter → Result R (Failure S E) → Answer S R E
  answer (with_error_type ch) resp = typed resp
  answer (without_error_type ch) resp = typed_dyn (map_error (into_dyn std) resp)
  answer (boxed ch) resp = boxed_dyn (map_ok into_boxed (map_error (into_dyn std) resp))
  answer (boxed_with_error ch) resp = boxed_err (map_ok into_boxed resp)

  abbrev pub wake : Wake → Wrapper → Wrapper
  wake n w = record w { wakes = w.wakes ++ n ∷ [] }

  -- `sender.send(resp).unwrap()`: a channel whose other end was dropped is a panic.
  unfoldable pub deliver : (ℕ → Bool) → Waiter → Result R (Failure S E) → Wrapper → Flow Wrapper
  unfolding answer
  deliver alive waiter resp w =
      if alive (channel waiter)
      then goes_on (record w { sent = w.sent ++ (channel waiter, answer waiter resp) ∷ [] })
      else panicked

  -- `response`: a waiter is taken out and answered; without one the answer is dropped (the loop
  -- does nothing with what the source returns here).
  settle : (ℕ → Bool) → Result R (Failure S E) → Wrapper → Option Waiter × slab.Store → Flow Wrapper
  unfolding deliver
  settle alive resp w (some waiter, waiters) =
      deliver alive waiter resp (record w { waiters = waiters })
  settle alive resp w (none, waiters) = goes_on (record w { waiters = waiters })

  unfoldable pub respond : (ℕ → Bool) → ℕ → Result R (Failure S E) → Wrapper → Flow Wrapper
  unfolding settle
  respond alive mid resp w = settle alive resp w (slab.take mid w.waiters)

  unfoldable pub set_ready : Bool → Wrapper → Wrapper
  set_ready b w = record w { context = record w.context { ready_flag = b } }

  unfoldable pub finish : ℕ → Wrapper → Wrapper
  finish n w = record w { context = record w.context { processing = sub64 w.context.processing n } }

  -- The place of a message comes back, with the wake-ups that go with it.
  unfoldable pub complete : Wrapper → Wrapper
  unfolding finish
  complete w =
      wake (notify_one on_response) (
        if w.context.processing == 1
        then wake (notify_waiters on_idle) (finish 1 w)
        else finish 1 w)

  -- One turn of the loop, for each event.
  unfoldable pub handle : (ℕ → Bool) → Event S R E → Wrapper → Flow Wrapper
  unfolding respond set_ready complete
  handle alive (error e) w = goes_on w
  handle alive pause w = goes_on (set_ready false w)
  handle alive ready w = goes_on (set_ready true (wake (notify_waiters on_ready) w))
  handle alive (init_failed e) w = goes_on (set_ready false (wake (notify_waiters on_ready) w))
  handle alive exited w = stops (wake (notify_waiters on_closed) w)
  handle alive flushed w = goes_on (
      wake (notify_one on_flushed) (record w { context = record w.context { need_flush = false } }))
  handle alive (synchronized res) w = goes_on (wake (notify_waiters on_synchronized) w)
  handle alive (response mid resp) w = respond alive mid resp (complete w)
  handle alive (batch_complete t n) w =
      goes_on
        (wake (if ltb 1 n then notify_waiters on_response else notify_one on_response) (finish n w))
  handle alive (stats_of st) w = panicked

  -- The loop over the stream of events; the end of the stream closes the receiver.
  unfoldable pub poll : (ℕ → Bool) → List (Event S R E) → Wrapper → Flow Wrapper
  poll alive [] w = stops (wake (notify_waiters on_closed) w)
  poll alive (ev ∷ evs) w = elim (handle alive ev w) [
    | goes_on w' ↦ poll alive evs w'
    | stops w' ↦ stops w'
    | panicked ↦ panicked
  ]
