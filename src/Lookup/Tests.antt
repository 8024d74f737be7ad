-- ===== src/Lookup/Tests.antt =====
-- The choice of receivers of src/lib.rs on a concrete bus.
use messagebus.Base.{◌≡◌, refl, true, ◌&&◌, none, some, List, [], ◌∷◌}
use messagebus.Lookup.{Receiver, LookupQuery, of_types, has_id, new, except, select_receivers}
use messagebus.Lookup.Queries.{IsArrangement, declares}
use messagebus.Lookup.Sound.{allows, select_receivers_lem}

abbrev as_given : List Receiver → List Receiver
as_given rs = rs

as_given-IsArrangement : IsArrangement as_given
as_given-IsArrangement = record { same = λ i rs. refl; kept = λ p rs h. h; none_added = refl }

abbrev two_receivers : List Receiver
two_receivers =
    of_types 1 (record { msg = "Ping"; resp = "Pong"; error = "Err" })
    ∷ of_types 2 (record { msg = "Ping"; resp = "Ack"; error = "Err" })
    ∷ []

abbrev ping_pong : LookupQuery
ping_pong = record { tid = "Ping"; rid = some "Pong"; eid = none }

select_receivers_lem_example :
    has_id 2 (select_receivers (new as_given two_receivers) "Ping" (except 1) none none true) ≡ (
      allows (except 1) 2
      && declares 2 (record { tid = "Ping"; rid = none; eid = none }) two_receivers)
select_receivers_lem_example =
    select_receivers_lem as_given as_given-IsArrangement two_receivers
      ((1, _, refl), ((2, _, refl), tt)) "Ping" (except 1) none none true 2
