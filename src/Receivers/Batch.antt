-- ===== src/Receivers/Batch.antt =====
-- The batching of requests: `process_batch_result` of src/receivers/mod.rs, and the part that the
-- loops of src/receivers/buffer_unordered_batched/mod.rs and
-- src/receivers/synchronize_batched/mod.rs have in common, which collects messages into batches.
-- How the batches then run beside one another is not part of this file.
pub mod Carried
pub mod Counted
pub mod Sizes
pub mod Tests
use messagebus.Base.{
  ℕ, Bool, true, false, List, [], ◌∷◌, ◌++◌, map, leb, length, is_empty, if◌then◌else◌, Option,
  none, some,
}
use messagebus.Message.{Result, ok, err}
use messagebus.Errors.{Error, no_response, other}
use messagebus.Event.{
  Event, response, error, Action, init, flush, sync, close, stats, Request, action, request,
}

module _ {S R E : Type 0} where
  -- The `while let` over the mids and the replies.
  pub pair_up : List (ℕ × Bool) → List R → List (Event S R E)
  pair_up [] re = []
  pair_up ((mid, req) ∷ mids) [] = response mid (err no_response) ∷ pair_up mids []
  pair_up ((mid, req) ∷ mids) (r ∷ re) = response mid (ok r) ∷ pair_up mids re

  -- The `for` over the mids of a batch that failed.
  pub fail_each : E → List (ℕ × Bool) → List (Event S R E)
  fail_each er [] = error (other er) ∷ []
  fail_each er ((mid, req) ∷ mids) = response mid (err (other er)) ∷ fail_each er mids

  -- The events that are sent for a batch, in their order.
  unfoldable pub process_batch_result : Result (List R) E → List (ℕ × Bool) → List (Event S R E)
  unfolding pair_up fail_each
  process_batch_result (ok re) mids = pair_up mids re
  process_batch_result (err er) mids = fail_each er mids

-- What the loop does to the rest of the program. A batch is the list of its messages, each with its
-- mid and its flag; `buffer_mid` and `buffer` of the source are the two halves of it.
pub data Effect (M : Type 0) : Type 0 where
  run_batch : List (ℕ × Bool) → List M → Effect M
  report_ready : Effect M
  report_flushed : Effect M
  run_sync : Effect M
  close_channel : Effect M
  panics : Effect M

pub record Buffer (M : Type 0) : Type 0 where
  pub mids : List (ℕ × Bool)
  pub msgs : List M

module _ {M : Type 0} where
  abbrev pub empty : Buffer M
  empty = record { mids = []; msgs = [] }

  -- Both buffers grow at the end.
  unfoldable pub push : ℕ → M → Bool → Buffer M → Buffer M
  push mid msg req b = record { mids = b.mids ++ (mid, req) ∷ []; msgs = b.msgs ++ msg ∷ [] }

  -- `drain(..)` of both buffers.
  pub drained : Buffer M → Buffer M × List (Effect M)
  drained b = (empty, run_batch b.mids b.msgs ∷ [])

  abbrev pub then_flushed : Buffer M × List (Effect M) → Buffer M × List (Effect M)
  then_flushed (b, es) = (b, es ++ report_flushed ∷ [])

  -- One turn of the loop; `none` is `unimplemented!()`.
  unfoldable pub step : ℕ → Request M → Buffer M → Option (Buffer M × List (Effect M))
  unfolding push drained
  step batch_size (request mid msg req) b =
      let b' : Buffer M = push mid msg req b in
      if leb batch_size (length b'.mids) then some (drained b') else some (b', [])
  step batch_size (action (init id)) b = some (b, report_ready ∷ [])
  step batch_size (action close) b = some (b, close_channel ∷ [])
  step batch_size (action flush) b =
      some (then_flushed (if is_empty b.mids then (b, []) else drained b))
  step batch_size (action sync) b = some (b, run_sync ∷ [])
  step batch_size (action stats) b = none

  -- The loop on the requests it receives.
  unfoldable pub run : ℕ → List (Request M) → Buffer M → Buffer M × List (Effect M)
  run batch_size [] b = (b, [])
  run batch_size (q ∷ qs) b = elim (step batch_size q b) [
    | none ↦ (b, panics ∷ [])
    | some (b', es) ↦ ((run batch_size qs b').0, es ++ (run batch_size qs b').1)
  ]
