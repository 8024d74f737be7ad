-- ===== src/Place.antt =====
-- A typed receiver as the bus reaches it: its counters, its channel and its waiters, with the
-- methods `send` and `force_send` of `Receiver` (src/receiver.rs) and the `send` of the inner
-- receivers, which are alike (src/receivers/*/sync.rs and async.rs).
use messagebus.Base.{ℕ, Bool, true, false, Option, none, some}
use messagebus.Message.{Message, Result, ok, err}
use messagebus.Errors.{Error, GenericError, send_closed}
use messagebus.Event.{Action, Request, action, request}
use messagebus.Context.{Context, try_reserve, increment_processing, set_need_flush, drop}
use messagebus.Slab.{Slab}
use messagebus.Wrapper.{Waiter}

-- What the bus takes from other crates: the unbounded channel of tokio, where `push` refuses once
-- the receiving end is closed, and the slab of waiters.
pub record Crates : Type 1 where
  -- `erased_serde::Error`.
  pub S : Type 0
  pub Chan : Type 0
  pub push : Request Message → Chan → Option Chan
  pub slab : Slab Waiter

module _ (crates : Crates) where
  open crates use {S, Chan, push, slab}

  pub record Place : Type 0 where
    pub context : Context
    pub chan : Chan
    pub waiters : slab.Store

  abbrev pub SendResult : Type 0 → Type 0
  SendResult A = Result A (Error S Message GenericError)

  unfoldable pub reserve_place : Place → Option Place
  reserve_place p = elim (try_reserve p.context) [
    | none ↦ none
    | some c ↦ some (record p { context = c })
  ]

  unfoldable pub drop_permit : Place → Place
  drop_permit p = record p { context = drop false p.context }

  -- `SendTypedReceiver::send`.
  unfoldable pub send_typed : ℕ → Message → Bool → Place → Place × SendResult (Unit {0})
  send_typed mid msg req p = elim (push (request mid msg req) p.chan) [
    | some chan ↦ (record p { chan = chan }, ok tt)
    | none ↦ (p, err (send_closed msg))
  ]

  -- `SendUntypedReceiver::send`.
  unfoldable pub send_action : Action → Place → Option Place
  send_action a p = elim (push (action a) p.chan) [
    | some chan ↦ some (record p { chan = chan })
    | none ↦ none
  ]

  -- The end of both `send`s: the receiver needs a flush, whatever came of the send.
  abbrev pub marked : Place × SendResult (Unit {0}) → Place × SendResult (Unit {0})
  marked (p, res) = (record p { context = set_need_flush p.context }, res)

  -- `Receiver::send` with a permit, for a message of the receiver's own type: what `cast_send_typed` does
  -- with another type, and that its unwrap panics there, is in Casts. The fuse of the permit is set in any
  -- case, so the place that it took is not given back here.
  unfoldable pub send : ℕ → Message → Bool → Place → Place × SendResult (Unit {0})
  unfolding send_typed
  send mid msg req p =
      let (p', res) = send_typed mid msg req p in
      marked (record p' { context = drop true p'.context }, res)

  unfoldable pub force_send : ℕ → Message → Bool → Place → Place × SendResult (Unit {0})
  unfolding send_typed
  force_send mid msg req p =
      marked (send_typed mid msg req (record p { context = increment_processing p.context }))
