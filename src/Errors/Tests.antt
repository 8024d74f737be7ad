-- ===== src/Errors/Tests.antt =====
-- The errors of src/error.rs at concrete values.
use messagebus.Base.{String, true, false, ◌≡◌, refl}
use messagebus.Message.{Message}
use messagebus.Errors.Send
use messagebus.Errors.Send.{closed, full}

abbrev boxed : String → Message
boxed s = record { type_id = 7; type_tag = "Msg"; shared = false; cloneable = true; payload = s }

full_becomes_closed : Send.into_boxed boxed (full "hello") ≡ closed (boxed "hello")
unfolding Send.into_boxed
full_becomes_closed = refl
