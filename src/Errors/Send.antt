-- ===== src/Errors/Send.antt =====
-- `SendError` (src/error.rs): the message comes back with the reason why it was not sent.
use messagebus.Message.{Message}

pub data SendError (M : Type 0) : Type 0 where
  closed : M → SendError M
  full : M → SendError M

unfoldable pub map_msg : {M U : Type 0} → (M → U) → SendError M → SendError U
map_msg f (closed m) = closed (f m)
map_msg f (full m) = full (f m)

-- The second arm answers `Closed`, as the source does.
unfoldable pub into_boxed : {M : Type 0} → (M → Message) → SendError M → SendError Message
into_boxed box (closed m) = closed (box m)
into_boxed box (full m) = closed (box m)
