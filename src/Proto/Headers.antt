-- ===== src/Proto/Headers.antt =====
-- The headers that `ProtocolHeader` makes itself, and the conversions of `ProtocolItem`
-- (crates/remote/src/proto.rs), beside what `serialize` writes.
use messagebus.Base.{ℕ, ◌≡◌, refl, ap, ◌∙◌, sym, ◌↔◌, Bool, true, false, Option, none, some}
use messagebus.Message.{TypeTag, Message, Result, ok, err, Call, returns}
use messagebus.Errors.{GenericError}
use messagebus.Event.{Event, Action, flush, close, sync}
use messagebus.Proto.Registry.{BodyType, none_, Wire}
use messagebus.Proto.Packet.{
  Header, Packet, Item, nop, event, action, send, ActionKind, send_kind, flush_kind, close_kind,
  synchronize_kind, no_flags, ProtoError, generic_serialize, serialize,
}

module _ (wire : Wire) where
  open wire use {S, Bytes, into_bytes}

  unfoldable pub header_of_send : ℕ → TypeTag → BodyType → Header wire
  header_of_send mid tt k = record {
    kind = send_kind;
    type_tag = some (into_bytes tt);
    flags = record { type_tag = true; body = true; error = false; argument = true };
    body_type = k;
    argument = mid;
  }

  abbrev pub bare_header : ActionKind → Header wire
  bare_header kind = record {
    kind = kind;
    type_tag = none;
    flags = no_flags;
    body_type = none_;
    argument = 0;
  }

  -- `ProtocolHeader::flush`, `close` and `sync`; there is none for the other actions.
  unfoldable pub header_of : Action → Option (Header wire)
  header_of flush = some (bare_header flush_kind)
  header_of close = some (bare_header close_kind)
  header_of sync = some (bare_header synchronize_kind)
  header_of _ = none

  -- The implementations of `From`.
  unfoldable pub from_action : Action → Item wire
  from_action a = action a

  unfoldable pub from_event : Event S Message GenericError → Item wire
  from_event ev = event ev

  unfoldable pub from_send : ℕ × (Message × Bool) → Item wire
  from_send (mid, (msg, req)) = send mid msg req

  unfoldable pub unwrap_send : Item wire → Result (ℕ × (Message × Bool)) (Item wire)
  unwrap_send (send mid msg req) = ok (mid, (msg, req))
  unwrap_send (nop) = err nop
  unwrap_send (event ev) = err (event ev)
  unwrap_send (action a) = err (action a)

  -- An action that `ProtocolHeader` has a header for is written with that header, where the body type is
  -- `None`, and with no body.
  pub serialize-from_action :
      (a : Action) (h : Header wire) (buffer : Bytes)
      → header_of a ≡ some h
      → serialize wire none_ buffer (from_action a)
        ≡ returns (ok (record { header = h; body = none }))
  unfolding header_of from_action serialize
  serialize-from_action flush h buffer e = cc
  serialize-from_action close h buffer e = cc
  serialize-from_action sync h buffer e = cc
  serialize-from_action (Action.init id) h buffer e = absurd (cc)
  serialize-from_action Action.stats h buffer e = absurd (cc)

  argument_flag : Call (Result (Packet wire) (ProtoError S)) → Bool
  argument_flag (returns (ok p)) = p.header.flags.argument
  argument_flag _ = false

  flag_lem :
      (mid : ℕ) (msg : Message) (req : Bool) (k : BodyType) (buffer body : Bytes)
      → msg.shared ≡ true
      → generic_serialize wire k msg buffer ≡ ok body
      → argument_flag (serialize wire k buffer (from_send (mid, (msg, req)))) ≡ req
  unfolding argument_flag from_send serialize
  flag_lem mid msg req k buffer body s g = simp (s, g) refl

  -- A message with a shared view that the serializer takes is written with the header of
  -- `ProtocolHeader::send` if it is a request, and only then: that header always has the flag by which
  -- the other side knows a request.
  pub serialize-from_send :
      (mid : ℕ) (msg : Message) (req : Bool) (k : BodyType) (buffer body : Bytes)
      → msg.shared ≡ true
      → generic_serialize wire k msg buffer ≡ ok body
      → (serialize wire k buffer (from_send (mid, (msg, req)))
          ≡ returns (ok (record { header = header_of_send mid msg.type_tag k; body = some body })))
        ↔ (req ≡ true)
  unfolding header_of_send from_send serialize argument_flag
  serialize-from_send mid msg req k buffer body s g = (
    λ e. sym (flag_lem mid msg req k buffer body s g) ∙ ap argument_flag e,
    λ r. simp (s, g, r) refl,
  )
