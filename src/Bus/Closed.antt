-- ===== src/Bus/Closed.antt =====
-- The flag `closed` of a bus (src/lib.rs).
use messagebus.Base.{ℕ, ◌≡◌, Bool, true, Option, none, some, arith}
use messagebus.Message.{TypeTag, Message, err}
use messagebus.Errors.{send_closed}
use messagebus.Lookup.{SendOptions}
use messagebus.Place.{Crates, SendResult}
use messagebus.Bus.{
  Bus, Others, try_send_ext, force_send_ext, try_send_one, send_ext, send_one, request,
}

module _ (crates : Crates) where
  -- A closed bus answers every send of a typed message with `Closed` and the message itself, at
  -- once, and changes nothing: no id is used up and no receiver is touched.
  pub closed_refuses :
      (b : Bus crates) (msg : Message) (options : SendOptions) (others : Others crates)
      → b.closed ≡ true
      → let refused : Bus crates × SendResult crates (Unit {0}) = (b, err (send_closed msg)) in
        (try_send_ext crates msg options b ≡ refused)
        × (force_send_ext crates msg options b ≡ refused)
        × (try_send_one crates msg b ≡ refused)
        × (send_ext crates msg options others b ≡ some refused)
        × (send_one crates msg others b ≡ some refused)
  unfolding try_send_ext force_send_ext try_send_one send_ext send_one
  closed_refuses b msg options others h = (
    rw (h, try_send_ext),
    rw (h, force_send_ext),
    rw (h, try_send_one),
    rw (h, send_ext),
    rw (h, send_one),
  )

  -- The same outcome on a bus with its flag set to `c`.
  abbrev pub with_closed :
      Bool → Option (Bus crates × SendResult crates ℕ) → Option (Bus crates × SendResult crates ℕ)
  with_closed c none = none
  with_closed c (some (b, res)) = some (record b { closed = c }, res)

  -- A request does not depend on whether the bus is closed: it is sent, refused or kept waiting in
  -- the same way, and with the same effect, whatever the flag says.
  pub request_ignores_closed :
      (c : Bool) (tid rid : TypeTag) (msg : Message) (options : SendOptions) (ch : ℕ)
      (others : Others crates) (b : Bus crates)
      → request crates tid rid msg options ch others (record b { closed = c })
        ≡ with_closed c (request crates tid rid msg options ch others b)
  unfolding request
  request_ignores_closed c tid rid msg options ch others b = ground arith
