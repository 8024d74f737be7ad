-- ===== src/Bus.antt =====
-- The sends of a bus of typed receivers (src/lib.rs).
pub mod Closed
pub mod Atomic
pub mod Boxed
pub mod Copies
pub mod Except
pub mod Flush
pub mod Leaks
pub mod Maintain
pub mod Mixed
pub mod Tests
pub mod TestsBoxed
use messagebus.Base.{
  ℕ, ◌+◌, ◌^◌, Bool, true, false, Option, none, some, List, [], ◌∷◌, ◌==◌, ℕ-eq, add64, first,
  if◌then◌else◌,
}
use messagebus.Message.{TypeTag, Message, Result, ok, err, Call, returns, panics}
use messagebus.Errors.{
  Error, GenericError, send_closed, send_full, no_receivers, add_listener_error, specify,
}
use messagebus.Lookup.{Receiver, LookupQuery-eq, LookupTable, SendOptions, select_receivers}
use messagebus.Table.{get}
use messagebus.Wrapper.{Waiter, without_error_type, request_mid}
use messagebus.Place.{Crates, Place, SendResult, reserve_place, drop_permit, send, force_send}

module _ (crates : Crates) where
  abbrev pub Places : Type 0
  Places = ℕ → Place crates

  -- The bus and the counter `ID_COUNTER`, a word of 64 bits. Receivers are shared: each is found by
  -- its id, however often the table names it.
  pub record Bus : Type 0 where
    pub lookup : LookupTable
    pub places : Places
    pub closed : Bool
    pub id_counter : ℕ

  abbrev pub at : ℕ → Place crates → Places → Places
  at i p ps j = if i == j then p else ps j

  -- `self.inner.lookup.get(&(msg.type_tag(), None, None))`.
  unfoldable pub targets : TypeTag → Bus → Option (List Receiver)
  targets t b = get (record { tid = t; rid = none; eid = none }) b.lookup

  -- `fetch_add`: the bus after the counter has given out an id.
  abbrev pub counted : Bus → Bus
  counted b = record b { id_counter = add64 b.id_counter 1 }

  drop_all : List Receiver → Places → Places
  drop_all [] ps = ps
  drop_all (r ∷ rs) ps = drop_all rs (at r.id (drop_permit crates (ps r.id)) ps)

  -- `Bus::try_reserve`: the permits taken so far, oldest last, are dropped where one is refused.
  unfoldable pub try_reserve : List Receiver → List Receiver → Places → Places × Bool
  unfolding drop_all
  try_reserve taken [] ps = (ps, true)
  try_reserve taken (r ∷ rs) ps = elim (reserve_place crates (ps r.id)) [
    | none ↦ (drop_all taken ps, false)
    | some p ↦ try_reserve (r ∷ taken) rs (at r.id p ps)
  ]

  -- A message goes to each receiver of the list, and what `send` returns is dropped.
  unfoldable pub send_each : ℕ → Message → List Receiver → Places → Places
  send_each mid msg [] ps = ps
  send_each mid msg (r ∷ rs) ps =
      send_each mid msg rs (at r.id (send crates mid msg false (ps r.id)).0 ps)

  unfoldable pub force_each : ℕ → Message → List Receiver → Places → Places
  force_each mid msg [] ps = ps
  force_each mid msg (r ∷ rs) ps =
      force_each mid msg rs (at r.id (force_send crates mid msg false (ps r.id)).0 ps)

  abbrev pub try_send_to :
      Message → ℕ → List Receiver → Bus → Places × Bool → Bus × SendResult crates (Unit {0})
  try_send_to msg mid rs b (ps, true) = (record b { places = send_each mid msg rs ps }, ok tt)
  try_send_to msg mid rs b (ps, false) = (record b { places = ps }, err (send_full msg))

  -- The options are not read.
  unfoldable pub try_send_ext : Message → SendOptions → Bus → Bus × SendResult crates (Unit {0})
  try_send_ext msg options b =
      if b.closed then (b, err (send_closed msg)) else elim (targets msg.type_tag b) [
        | none ↦ (counted b, ok tt)
        | some rs ↦ try_send_to msg b.id_counter rs (counted b) (try_reserve [] rs b.places)
      ]

  unfoldable pub try_send : Message → Bus → Bus × SendResult crates (Unit {0})
  unfolding try_send_ext
  try_send msg b = try_send_ext msg SendOptions.broadcast b

  unfoldable pub force_send_ext : Message → SendOptions → Bus → Bus × SendResult crates (Unit {0})
  unfolding force_each
  force_send_ext msg options b =
      if b.closed then (b, err (send_closed msg)) else elim (targets msg.type_tag b) [
        | none ↦ (counted b, ok tt)
        | some rs ↦ (record (counted b) { places = force_each b.id_counter msg rs b.places }, ok tt)
      ]

  unfoldable pub first_target : TypeTag → Bus → Option Receiver
  unfolding targets
  first_target t b = elim (targets t b) [ none ↦ none | some rs ↦ first rs ]

  abbrev pub sent_one :
      ℕ → Bus → Place crates × SendResult crates (Unit {0}) → Bus × SendResult crates (Unit {0})
  sent_one i b (p, res) = (record b { places = at i p b.places }, res)

  unfoldable pub try_send_one : Message → Bus → Bus × SendResult crates (Unit {0})
  try_send_one msg b =
      if b.closed then (b, err (send_closed msg)) else elim (first_target msg.type_tag b) [
        | none ↦ (counted b, err no_receivers)
        | some r ↦ elim (reserve_place crates (b.places r.id)) [
          | none ↦ (counted b, err (send_full msg))
          | some p ↦ sent_one r.id (counted b) (send crates b.id_counter msg false p)
        ]
      ]

  -- What other tasks do to the places, a change at each time that a task waits in `reserve`.
  abbrev pub Others : Type 0
  Others = List (Places → Places)

  -- `reserve`, at the receiver `i`; `none` while the task still waits.
  unfoldable pub reserve : ℕ → Others → Places → Option (Others × Places)
  reserve i [] ps = elim (reserve_place crates (ps i)) [
    | none ↦ none
    | some p ↦ some ([], at i p ps)
  ]
  reserve i (other ∷ others) ps =
      let rest = reserve i others (other ps) in
      elim (reserve_place crates (ps i)) [ none ↦ rest | some p ↦ some (other ∷ others, at i p ps) ]

  -- The loop of `send_ext`: a place is awaited at each receiver in turn, just before its send.
  unfoldable pub send_awaiting :
      ℕ → Message → List Receiver → Others → Places → Option (Others × Places)
  send_awaiting mid msg [] others ps = some (others, ps)
  send_awaiting mid msg (r ∷ rs) others ps = elim (reserve r.id others ps) [
    | none ↦ none
    | some (others', ps') ↦
        send_awaiting mid msg rs others' (at r.id (send crates mid msg false (ps' r.id)).0 ps')
  ]

  unfoldable pub send_ext :
      Message → SendOptions → Others → Bus → Option (Bus × SendResult crates (Unit {0}))
  unfolding send_awaiting
  send_ext msg options others b =
      if b.closed then some (b, err (send_closed msg)) else elim (targets msg.type_tag b) [
        | none ↦ some (counted b, ok tt)
        | some rs ↦ elim (send_awaiting b.id_counter msg rs others b.places) [
          | none ↦ none
          | some (_, ps) ↦ some (record (counted b) { places = ps }, ok tt)
        ]
      ]

  unfoldable pub send_one : Message → Others → Bus → Option (Bus × SendResult crates (Unit {0}))
  unfolding reserve
  send_one msg others b =
      if b.closed then some (b, err (send_closed msg)) else elim (first_target msg.type_tag b) [
        | none ↦ some (counted b, err no_receivers)
        | some r ↦ elim (reserve r.id others b.places) [
          | none ↦ none
          | some (_, ps) ↦ some (
              sent_one r.id (record (counted b) { places = ps })
                (send crates b.id_counter msg false (ps r.id)))
        ]
      ]

  -- `request`, up to the wait for the answer on the channel `ch`: the mid under which the waiter
  -- stands, or the error. The flag `closed` is not read.
  unfoldable pub request :
      TypeTag
      → TypeTag
      → Message
      → SendOptions
      → ℕ
      → Others
      → Bus
      → Option (Bus × SendResult crates ℕ)
  unfolding reserve request_mid
  request tid rid msg options ch others b =
      elim (first (select_receivers b.lookup tid options (some rid) none true)) [
        | none ↦ some (b, err no_receivers)
        | some r ↦ elim (crates.slab.insert (without_error_type ch) (b.places r.id).waiters) [
          | none ↦ some (b, err add_listener_error)
          | some (mid, waiters) ↦
              let ps = at r.id (record (b.places r.id) { waiters = waiters }) b.places in
              elim (reserve r.id others ps) [
                | none ↦ none
                | some (_, ps') ↦
                    let (p, res) = send crates (request_mid mid) msg true (ps' r.id) in
                    some (
                      record b { places = at r.id p ps' },
                      elim res [ ok _ ↦ ok mid | err e ↦ err e ],
                    )
              ]
        ]
      ]
