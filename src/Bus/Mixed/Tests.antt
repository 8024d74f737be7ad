-- ===== src/Bus/Mixed/Tests.antt =====
-- A bus of a typed receiver and a relay (src/lib.rs, src/relay.rs) at a concrete send.
use messagebus.Base.{
  ℕ, ◌≡◌, refl, ◌⊎◌, inl, inr, Bool, true, false, none, some, List, [], ◌∷◌, ◌++◌, if◌then◌else◌,
  ◌==◌, ℕ-eq, Bool-cases,
}
use messagebus.Message.{Message, Result, ok, err, returns}
use messagebus.Errors.{Error, GenericError, try_again, send_full}
use messagebus.Slab.Tests.{table_slab}
use messagebus.Lookup.{Receiver, LookupQuery-eq, of_types, has_id, new, broadcast}
use messagebus.Relay
use messagebus.Table
use messagebus.Wrapper.Accept
use messagebus.Bus.Atomic.{Distinct}
use messagebus.Bus.Tests.{simple, ping, pinger, place, place-IsBounded}
use messagebus.Bus.Mixed.{Remote, carried, Targets, typed, relayed, MixedBus, counted, try_send_ext}
use messagebus.Bus.Mixed.Places.{taken, asked}
use messagebus.Bus.Mixed.Reserve.{AllFit, all_room, asked_of, changed}
use messagebus.Bus.Mixed.Atomic.{HandsBack, delivered, try_send_mixed}

abbrev send_msg :
    ℕ
    → Message
    → Bool
    → List Message
    → List Message × Result (Unit {0}) (Error (Unit {0}) Message GenericError)
send_msg mid msg req sent =
    if msg.shared then (sent ++ msg ∷ [], ok tt) else (sent, err (try_again msg))

-- A remote that refuses what has no shared view.
abbrev remote : Remote (Unit {0})
remote = record { Inner = List Message; send_msg = send_msg }

hands_back : HandsBack simple (table_slab ℕ) remote
unfolding carried
hands_back mid msg req sent = elim (Bool-cases msg.shared) [
  | inl is_shared ↦ rw is_shared tt
  | inr is_own ↦ rw is_own (inr refl)
]

-- Receiver 3 is a relay.
abbrev targets : Targets simple (table_slab ℕ) remote
targets i = if i == 3 then relayed (Relay.new (Unit {0}) (table_slab ℕ)) [] else typed (place i)

abbrev mixed : MixedBus simple (table_slab ℕ) remote
mixed = record {
  lookup = new (λ l. l) (pinger 3 ∷ pinger 1 ∷ []);
  targets = targets;
  closed = false;
  id_counter = 10;
}

abbrev pingers : List Receiver
pingers = pinger 1 ∷ pinger 3 ∷ []

pingers-Distinct : Distinct simple pingers
unfolding has_id of_types
pingers-Distinct = (refl, (refl, tt))

found : Table.get (record { tid = "Ping"; rid = none; eid = none }) mixed.lookup ≡ some pingers
unfolding new of_types Table.get Accept.iter_types Table.insert
found = refl

fit : AllFit simple (table_slab ℕ) remote "Ping" targets
unfolding Relay.new Table.get
fit i = elim (Bool-cases (i == 3)) [
  | inl is_relay ↦ rw is_relay tt
  | inr is_typed ↦ rw is_typed (place-IsBounded i)
]

try_send_mixed_example :
    ((all_room simple (table_slab ℕ) remote "Ping" pingers targets ≡ true)
      × (try_send_ext simple (table_slab ℕ) remote ping broadcast mixed
          ≡ returns (
            record (counted simple (table_slab ℕ) remote mixed) {
              targets =
                  changed simple
                    (table_slab ℕ)
                    remote
                    (λ x.
                      delivered simple
                        (table_slab ℕ)
                        remote
                        10
                        ping
                        (taken simple (table_slab ℕ) remote "Ping" x))
                    (λ i. has_id i pingers)
                    targets;
            },
            ok tt,
          )))
    ⊎ ((all_room simple (table_slab ℕ) remote "Ping" pingers targets ≡ false)
        × (try_send_ext simple (table_slab ℕ) remote ping broadcast mixed
            ≡ returns (
              record (counted simple (table_slab ℕ) remote mixed) {
                targets =
                    changed simple
                      (table_slab ℕ)
                      remote
                      (asked simple (table_slab ℕ) remote "Ping")
                      (λ i. has_id i (asked_of simple (table_slab ℕ) remote "Ping" pingers targets))
                      targets;
              },
              err (send_full ping),
            )))
try_send_mixed_example =
    try_send_mixed simple (table_slab ℕ) remote mixed ping broadcast pingers hands_back refl found
      pingers-Distinct fit
