-- ===== src/Bus/Mixed.antt =====
-- The bus with typed receivers and relays side by side: `try_reserve`, `send` of `Receiver`
-- (src/receiver.rs), which goes to the trait object of a relay, and `try_send` (src/lib.rs).
pub mod Places
pub mod Reserve
pub mod Atomic
pub mod Tests
use messagebus.Base.{
  ℕ, Bool, true, false, Option, none, some, List, [], ◌∷◌, ◌==◌, ℕ-eq, add64, if◌then◌else◌,
}
use messagebus.Message.{TypeTag, Message, Result, ok, err, Call, returns, panics, downcast}
use messagebus.Errors.{
  Error, GenericError, send_error, try_again, wrong_message_type, send_closed, send_full,
}
use messagebus.Errors.Send.{closed, full}
use messagebus.Lookup.{Receiver, LookupQuery-eq, LookupTable, SendOptions}
use messagebus.Table.{get}
use messagebus.Slab.{Slab}
use messagebus.Relay.{Relay}
use messagebus.Relay
use messagebus.Place.{Crates, Place, SendResult, reserve_place, drop_permit, send}

-- What is behind a relay: `send_msg` of `SendUntypedReceiver`.
pub record Remote (S : Type 0) : Type 1 where
  pub Inner : Type 0
  pub send_msg :
      ℕ → Message → Bool → Inner → Inner × Result (Unit {0}) (Error S Message GenericError)

-- The message that an error hands back.
unfoldable pub carried : {S E : Type 0} → Error S Message E → Option Message
carried (send_error (closed m)) = some m
carried (send_error (full m)) = some m
carried (try_again m) = some m
carried (wrong_message_type m) = some m
carried _ = none

module _ (crates : Crates) (slab : Slab ℕ) (remote : Remote crates.S) where
  -- `dyn ReceiverTrait`: a receiver that is typed, or a relay.
  pub data Target : Type 0 where
    typed : Place crates → Target
    relayed : Relay crates.S slab → remote.Inner → Target

  abbrev pub Targets : Type 0
  Targets = ℕ → Target

  pub record MixedBus : Type 0 where
    pub lookup : LookupTable
    pub targets : Targets
    pub closed : Bool
    pub id_counter : ℕ

  abbrev pub at : ℕ → Target → Targets → Targets
  at i x ts j = if i == j then x else ts j

  -- `Receiver::try_reserve`: the flag tells whether a permit is returned.
  unfoldable pub reserve_target : TypeTag → Target → Target × Bool
  reserve_target t (typed p) = elim (reserve_place crates p) [
    | none ↦ (typed p, false)
    | some q ↦ (typed q, true)
  ]
  reserve_target t (relayed r inner) =
      let (r', granted) = Relay.try_reserve crates.S slab t r in (relayed r' inner, granted)

  -- A permit that is dropped without its fuse.
  unfoldable pub drop_target : TypeTag → Target → Target
  drop_target t (typed p) = typed (drop_permit crates p)
  drop_target t (relayed r inner) = relayed (Relay.permit_drop crates.S slab t r) inner

  drop_all : TypeTag → List Receiver → Targets → Targets
  drop_all t [] ts = ts
  drop_all t (r ∷ rs) ts = drop_all t rs (at r.id (drop_target t (ts r.id)) ts)

  -- `Bus::try_reserve`.
  unfoldable pub reserve_all : TypeTag → List Receiver → List Receiver → Targets → Targets × Bool
  unfolding reserve_target drop_all
  reserve_all t taken [] ts = (ts, true)
  reserve_all t taken (r ∷ rs) ts =
      let (x, granted) = reserve_target t (ts r.id) in
      let rest = reserve_all t (r ∷ taken) rs (at r.id x ts) in
      if granted then rest else (drop_all t taken (at r.id x ts), false)

  -- The message that comes back from a relay is cast to its type again, and the cast is unwrapped.
  unfoldable pub recast :
      ℕ → SendResult crates (Unit {0}) → Target → Call (Target × SendResult crates (Unit {0}))
  unfolding carried
  recast type_id (ok u) x = returns (x, ok u)
  recast type_id (err e) x = elim (carried e) [
    | none ↦ returns (x, err e)
    | some m ↦ elim (downcast type_id m) [ none ↦ panics | some m' ↦ returns (x, err e) ]
  ]

  -- `Receiver::send` with a permit.
  unfoldable pub send_target :
      ℕ → Message → Bool → Target → Call (Target × SendResult crates (Unit {0}))
  unfolding recast
  send_target mid msg req (typed p) =
      let (p', res) = send crates mid msg req p in returns (typed p', res)
  send_target mid msg req (relayed r inner) =
      let (inner', res) = remote.send_msg mid msg req inner in
      recast msg.type_id res (relayed (Relay.set_need_flush crates.S slab r) inner')

  -- The loop of `try_send_ext`; what `send` returns is dropped.
  unfoldable pub send_all : ℕ → Message → List Receiver → Targets → Call Targets
  unfolding send_target
  send_all mid msg [] ts = returns ts
  send_all mid msg (r ∷ rs) ts = elim (send_target mid msg false (ts r.id)) [
    | panics ↦ panics
    | returns (x, res) ↦ send_all mid msg rs (at r.id x ts)
  ]

  abbrev pub counted : MixedBus → MixedBus
  counted b = record b { id_counter = add64 b.id_counter 1 }

  -- The sends, once the permits are there or are not.
  abbrev pub send_reserved :
      Message
      → List Receiver
      → MixedBus
      → Targets × Bool
      → Call (MixedBus × SendResult crates (Unit {0}))
  send_reserved msg rs b (ts, false) =
      returns (record (counted b) { targets = ts }, err (send_full msg))
  send_reserved msg rs b (ts, true) = elim (send_all b.id_counter msg rs ts) [
    | panics ↦ panics
    | returns ts' ↦ returns (record (counted b) { targets = ts' }, ok tt)
  ]

  -- `try_send_ext`; the options are not read.
  unfoldable pub try_send_ext :
      Message → SendOptions → MixedBus → Call (MixedBus × SendResult crates (Unit {0}))
  unfolding send_all reserve_all
  try_send_ext msg options b =
      if b.closed
      then returns (b, err (send_closed msg))
      else elim (get (record { tid = msg.type_tag; rid = none; eid = none }) b.lookup) [
        | none ↦ returns (counted b, ok tt)
        | some rs ↦ send_reserved msg rs b (reserve_all msg.type_tag [] rs b.targets)
      ]
