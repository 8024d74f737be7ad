-- ===== src/Bus/Boxed.antt =====
-- Messages that are sent as trait objects: `send_boxed` of `Receiver` and `ReceiverWrapper`
-- (src/receiver.rs), and the boxed sends and requests of the bus (src/lib.rs), for typed receivers.
use messagebus.Base.{ℕ, Bool, true, false, Option, none, some, List, [], ◌∷◌, if◌then◌else◌, first}
use messagebus.Message.{TypeTag, Message, Result, ok, err, try_clone_boxed, downcast}
use messagebus.Errors.{
  Error, GenericError, send_closed, no_receivers, no_response, add_listener_error,
  message_cast_error,
}
use messagebus.Lookup.{Receiver, SendOptions, select_receivers}
use messagebus.Wrapper.{Waiter, with_error_type, boxed, boxed_with_error, request_mid}
use messagebus.Context.{drop}
use messagebus.Place.{Crates, Place, SendResult, send, send_typed, marked}
use messagebus.Bus.{Bus, Places, Others, at, counted, reserve, first_target}

-- A call of the bus: it still waits for a place, it has panicked, or it is done.
pub data Outcome {ℓ} (A : Type ℓ) : Type ℓ where
  waits : Outcome A
  panicked : Outcome A
  done : A → Outcome A

-- The next step of a call, once the one before is done.
abbrev pub and_then {ℓ κ} : {A : Type ℓ} {B : Type κ} → Outcome A → (A → Outcome B) → Outcome B
and_then waits step = waits
and_then panicked step = panicked
and_then (done a) step = step a

-- The receivers are typed: the type of each one's messages, by its id, as its `TypeId`.
module _ (crates : Crates) (type_of : ℕ → ℕ) where
  -- `ReceiverWrapper::send_boxed`.
  unfoldable pub send_downcast :
      ℕ → ℕ → Message → Bool → Place crates → Place crates × SendResult crates (Unit {0})
  send_downcast type_id mid msg req p = elim (downcast type_id msg) [
    | none ↦ (p, err message_cast_error)
    | some m ↦ send_typed crates mid m req p
  ]

  abbrev pub used :
      Place crates × SendResult crates (Unit {0}) → Place crates × SendResult crates (Unit {0})
  used (p, res) = marked crates (record p { context = drop true p.context }, res)

  -- `Receiver::send_boxed` with a permit, whose fuse is set in any case.
  unfoldable pub send_place :
      ℕ → Message → Bool → Receiver → Places crates → Place crates × SendResult crates (Unit {0})
  unfolding send_downcast
  send_place mid msg req r ps = used (send_downcast (type_of r.id) mid msg req (ps r.id))

  -- A copy of the message is made before the place is awaited; the copy is unwrapped.
  unfoldable pub send_copy :
      ℕ
      → Message
      → Receiver
      → Others crates
      → Places crates
      → Outcome (Others crates × Places crates)
  unfolding send_place
  send_copy mid msg r others ps = elim (try_clone_boxed msg) [
    | none ↦ panicked
    | some copy ↦ elim (reserve crates r.id others ps) [
      | none ↦ waits
      | some (others', ps') ↦ done (others', at crates r.id (send_place mid copy false r ps').0 ps')
    ]
  ]

  unfoldable pub send_copies :
      ℕ
      → Message
      → List Receiver
      → Others crates
      → Places crates
      → Outcome (Others crates × Places crates)
  unfolding send_copy
  send_copies mid msg [] others ps = done (others, ps)
  send_copies mid msg (r ∷ rs) others ps =
      and_then (send_copy mid msg r others ps) (λ next. send_copies mid msg rs next.0 next.1)

  abbrev pub sent_boxed :
      Bus crates
      → Outcome (Others crates × Places crates)
      → Outcome (Bus crates × SendResult crates (Unit {0}))
  sent_boxed b waits = waits
  sent_boxed b panicked = panicked
  sent_boxed b (done (others, ps)) = done (record b { places = ps }, ok tt)

  -- The receivers after the first one, and the first one last.
  abbrev pub first_last :
      ℕ
      → Message
      → List Receiver
      → Others crates
      → Places crates
      → Outcome (Others crates × Places crates)
  first_last mid msg [] others ps = done (others, ps)
  first_last mid msg (r ∷ rs) others ps =
      and_then (send_copies mid msg rs others ps) (λ next. send_copy mid msg r next.0 next.1)

  unfoldable pub send_boxed :
      Message
      → SendOptions
      → Others crates
      → Bus crates
      → Outcome (Bus crates × SendResult crates (Unit {0}))
  unfolding send_copies
  send_boxed msg options others b =
      if b.closed
      then done (b, err (send_closed msg))
      else (sent_boxed (counted crates b) (
          first_last b.id_counter msg
            (select_receivers b.lookup msg.type_tag options none none false) others b.places))

  -- `Ok(rs.send_boxed(…)?)` at the one receiver.
  abbrev pub send_at :
      ℕ
      → Message
      → Receiver
      → Bus crates
      → Option (Others crates × Places crates)
      → Outcome (Bus crates × SendResult crates (Unit {0}))
  send_at mid msg r b none = waits
  send_at mid msg r b (some (others, ps)) =
      let (p, res) = send_place mid msg false r ps in
      done (record b { places = at crates r.id p ps }, res)

  unfoldable pub send_boxed_one :
      Message
      → SendOptions
      → Others crates
      → Bus crates
      → Outcome (Bus crates × SendResult crates (Unit {0}))
  unfolding send_place
  send_boxed_one msg options others b =
      if b.closed
      then done (b, err (send_closed msg))
      else (elim (first (select_receivers b.lookup msg.type_tag options none none false)) [
        | none ↦ done (counted crates b, err no_receivers)
        | some r ↦
            send_at b.id_counter msg r (counted crates b) (reserve crates r.id others b.places)
      ])

  -- What `deserialize_shared_message` gives; the options are not read.
  unfoldable pub send_deserialize_one :
      TypeTag
      → Result Message (Error crates.S Message GenericError)
      → Others crates
      → Bus crates
      → Outcome (Bus crates × SendResult crates (Unit {0}))
  unfolding send_place
  send_deserialize_one tag read others b =
      if b.closed then done (b, err no_response) else (elim (first_target crates tag b) [
        | none ↦ done (counted crates b, err no_receivers)
        | some r ↦ elim read [
          | err e ↦ done (counted crates b, err e)
          | ok msg ↦
              send_at b.id_counter msg r (counted crates b) (reserve crates r.id others b.places)
        ]
      ])

  -- `add_response_waiter…`: the waiter at the receiver.
  unfoldable pub add_waiter : Waiter → Receiver → Places crates → Option (ℕ × Places crates)
  add_waiter waiter r ps = elim (crates.slab.insert waiter (ps r.id).waiters) [
    | none ↦ none
    | some (mid, waiters) ↦ some (mid, at crates r.id (record (ps r.id) { waiters = waiters }) ps)
  ]

  abbrev pub with_mid : ℕ → SendResult crates (Unit {0}) → SendResult crates ℕ
  with_mid mid (ok _) = ok mid
  with_mid mid (err e) = err e

  -- The request itself, once its waiter stands: up to the wait for the answer.
  abbrev pub request_at :
      ℕ
      → Message
      → Receiver
      → Bus crates
      → Option (Others crates × Places crates)
      → Outcome (Bus crates × SendResult crates ℕ)
  request_at mid msg r b none = waits
  request_at mid msg r b (some (others, ps)) =
      let (p, res) = send_place (request_mid mid) msg true r ps in
      done (record b { places = at crates r.id p ps }, with_mid mid res)

  -- `request_we` of a typed message, up to the wait. The flag `closed` is not read. The error of a
  -- refused send carries no typed error, so that giving it another type changes nothing.
  unfoldable pub request_we :
      TypeTag
      → TypeTag
      → TypeTag
      → Message
      → SendOptions
      → ℕ
      → Others crates
      → Bus crates
      → Outcome (Bus crates × SendResult crates ℕ)
  unfolding add_waiter request_mid
  request_we tid rid eid msg options ch others b =
      elim (first (select_receivers b.lookup tid options (some rid) (some eid) true)) [
        | none ↦ done (b, err no_receivers)
        | some r ↦ elim (add_waiter (with_error_type ch) r b.places) [
          | none ↦ done (b, err add_listener_error)
          | some (mid, ps) ↦ elim (reserve crates r.id others ps) [
            | none ↦ waits
            | some (_, ps') ↦
                let (p, res) = send crates (request_mid mid) msg true (ps' r.id) in
                done (record b { places = at crates r.id p ps' }, with_mid mid res)
          ]
        ]
      ]

  abbrev pub request_listening :
      Message
      → Receiver
      → Others crates
      → Bus crates
      → Option (ℕ × Places crates)
      → Outcome (Bus crates × SendResult crates ℕ)
  request_listening msg r others b none = done (b, err add_listener_error)
  request_listening msg r others b (some (mid, ps)) =
      request_at mid msg r b (reserve crates r.id others ps)

  abbrev pub request_first :
      Waiter
      → Message
      → Others crates
      → Bus crates
      → Option Receiver
      → Outcome (Bus crates × SendResult crates ℕ)
  request_first waiter msg others b none = done (b, err no_receivers)
  request_first waiter msg others b (some r) =
      request_listening msg r others b (add_waiter waiter r b.places)

  -- `request_boxed` and `request_boxed_we`, up to the wait: the waiter that they add and the error
  -- type that they ask for.
  unfoldable pub request_waiting :
      Waiter
      → Option TypeTag
      → Message
      → SendOptions
      → Others crates
      → Bus crates
      → Outcome (Bus crates × SendResult crates ℕ)
  unfolding send_place add_waiter request_mid
  request_waiting waiter eid msg options others b =
      if b.closed
      then done (b, err (send_closed msg))
      else (request_first waiter msg others b
          (first (select_receivers b.lookup msg.type_tag options none eid true)))

  unfoldable pub request_boxed :
      Message
      → SendOptions
      → ℕ
      → Others crates
      → Bus crates
      → Outcome (Bus crates × SendResult crates ℕ)
  unfolding request_waiting
  request_boxed msg options ch others b = request_waiting (boxed ch) none msg options others b

  unfoldable pub request_boxed_we :
      TypeTag
      → Message
      → SendOptions
      → ℕ
      → Others crates
      → Bus crates
      → Outcome (Bus crates × SendResult crates ℕ)
  unfolding request_waiting
  request_boxed_we eid msg options ch others b =
      request_waiting (boxed_with_error ch) (some eid) msg options others b

  -- `request_deserialize`, up to the wait: the waiter is unwrapped, and the message is read after it
  -- was added.
  unfoldable pub request_deserialize :
      TypeTag
      → Result Message (Error crates.S Message GenericError)
      → SendOptions
      → ℕ
      → Others crates
      → Bus crates
      → Outcome (Bus crates × SendResult crates ℕ)
  unfolding send_place add_waiter request_mid
  request_deserialize tag read options ch others b =
      if b.closed
      then done (b, err no_response)
      else (elim (first (select_receivers b.lookup tag options none none true)) [
        | none ↦ done (b, err no_receivers)
        | some r ↦ elim (add_waiter (boxed ch) r b.places) [
          | none ↦ panicked
          | some (mid, ps) ↦ elim read [
            | err e ↦ done (record b { places = ps }, err e)
            | ok msg ↦
                request_at mid msg r (record b { places = ps }) (reserve crates r.id others ps)
          ]
        ]
      ])
