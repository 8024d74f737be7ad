-- ===== src/Bus/TestsBoxed.antt =====
-- Boxed sends and requests on a bus of two receivers, and its waits (src/lib.rs).
use messagebus.Base.{ℕ-eq, ℕ, ◌≡◌, refl, true, false, none, some, first, [], All}
use messagebus.Message.{Message, err}
use messagebus.Errors.{type_tag_not_registered}
use messagebus.Wrapper.{boxed}
use messagebus.Wrapper.Accept
use messagebus.Table
use messagebus.Lookup.{of_types, new, broadcast, select_receivers, accept}
use messagebus.Bus.{Bus, counted, send_awaiting}
use messagebus.Bus.Boxed.{done, send_boxed, sent_boxed, request_deserialize}
use messagebus.Bus.Copies.{TakesType, selected, rotated, outcome_of, send_boxed_lem}
use messagebus.Bus.Leaks.{request_deserialize_leaks}
use messagebus.Bus.Tests.{simple, ping, two, pinger}

-- Every receiver takes messages of the type 1.
abbrev pings : ℕ → ℕ
pings i = 1

two-TakesType :
    All
      (TakesType simple pings ping)
      (rotated simple pings (selected simple pings ping broadcast two))
unfolding select_receivers new of_types Table.get Table.insert Accept.iter_types accept
    Accept.accept_msg
two-TakesType = (refl, (refl, tt))

send_boxed_lem_example :
    send_boxed simple pings ping broadcast [] two
    ≡ sent_boxed simple pings (counted simple two) (
        outcome_of simple pings (
          send_awaiting simple 10 ping
            (rotated simple pings (selected simple pings ping broadcast two))
            []
            two.places))
send_boxed_lem_example = send_boxed_lem simple pings ping broadcast [] two refl refl two-TakesType

-- A message that was derived without `clone`.
abbrev unclonable : Message
unclonable = record ping { cloneable = false }

two_first : first (select_receivers two.lookup "Ping" broadcast none none true) ≡ some (pinger 1)
unfolding select_receivers new of_types Table.get Table.insert Accept.iter_types accept
    Accept.accept_req
two_first = refl

request_deserialize_leaks_example :
    (b' : Bus simple) × (request_deserialize simple pings "Ping"
        (err (type_tag_not_registered "Ping"))
        broadcast
        4
        []
        two
      ≡ done (b', err (type_tag_not_registered "Ping")))
    × ((simple.slab.take 0 (b'.places (pinger 1).id).waiters).0 ≡ some (boxed 4))
request_deserialize_leaks_example =
    request_deserialize_leaks simple pings "Ping" (type_tag_not_registered "Ping") broadcast 4 []
      two (pinger 1) 0 _ refl two_first refl
