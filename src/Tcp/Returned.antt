-- ===== src/Tcp/Returned.antt =====
-- What a relay hands back when it refuses a message (crates/remote/src/relays/tcp/mod.rs).
use messagebus.Base.{ℕ, refl, inl, inr, Bool, Bool-cases}
use messagebus.Message.{Message}
use messagebus.Proto.Registry.{Wire}
use messagebus.Bus.Mixed.{carried}
use messagebus.Bus.Mixed.Atomic.{IsReturned}
use messagebus.Tcp.Handle.{TcpRelay, send_msg}

module _ (wire : Wire) where
  -- `send_msg` of the TCP relay takes the message, or hands the same message back, whether it has no
  -- shared view or the channel to the writer is closed.
  pub send_msg-IsReturned :
      (mid : ℕ) (msg : Message) (req : Bool) (r : TcpRelay wire)
      → IsReturned msg (send_msg wire mid msg req r).1
  unfolding send_msg carried
  send_msg-IsReturned mid msg req r = elim (Bool-cases msg.shared) [
    | inr is_own ↦ rw is_own (inr refl)
    | inl is_shared ↦ elim (Bool-cases r.items_open) [
      | inl is_open ↦ rw (is_shared, is_open) tt
      | inr is_closed ↦ rw (is_shared, is_closed) (inr refl)
    ]
  ]
