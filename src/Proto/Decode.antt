-- ===== src/Proto/Decode.antt =====
-- `ProtocolPacket::deserialize` (crates/remote/src/proto.rs).
use messagebus.Base.{ℕ, ◌&&◌, String, Option, none, some, if◌then◌else◌}
use messagebus.Message.{TypeTag, Message, Result, ok, err, Call, returns, panics}
use messagebus.Errors.{Error, GenericError, other, map_msg}
use messagebus.Event.{
  Event, Failure, response, synchronized, batch_complete, flushed, exited, ready, pause, init,
  flush, sync, close,
}
use messagebus.Proto.Registry.{BodyType, cbor, json, Wire, TypeRegistry, deserialize_shared_message}
use messagebus.Proto.Packet.{
  ActionKind, nop_kind, error_kind, send_kind, response_kind, batch_complete_kind, flush_kind,
  flushed_kind, synchronize_kind, synchronized_kind, close_kind, exited_kind, initialize_kind,
  ready_kind, pause_kind, ProtoError, protocol_parse_error, unknown_codec, Header, Packet, Item,
  nop, event, action, send,
}

module _ (wire : Wire) where
  open wire use {S, Bytes, from_utf8_lossy}

  -- What a packet brings: a message, an error, or neither.
  abbrev pub Parts : Type 0
  Parts = Option Message × Option (Failure S GenericError)

  -- `generic_deserialize`, with the closure's call as its argument.
  unfoldable pub generic_deserialize : BodyType → Call Parts → Call (Result Parts (ProtoError S))
  generic_deserialize cbor f = elim f [ returns p ↦ returns (ok p) | panics ↦ panics ]
  generic_deserialize json f = elim f [ returns p ↦ returns (ok p) | panics ↦ panics ]
  generic_deserialize _ f = returns (err unknown_codec)

  abbrev pub tag_of : Header wire → Option TypeTag
  tag_of h =
      if h.flags.type_tag
      then elim h.type_tag [ none ↦ none | some x ↦ some (from_utf8_lossy x) ]
      else none

  abbrev pub text_of : Option Bytes → String
  text_of none = ""
  text_of (some x) = from_utf8_lossy x

  abbrev pub parts_of : Result Message (Error S Message GenericError) → Parts
  parts_of (ok msg) = (some msg, none)
  parts_of (err e) = (none, some (map_msg (λ _. tt) e))

  -- The body under the type tag; a tag that is not there is an `unwrap` of `None`.
  unfoldable pub load : TypeRegistry wire → Option TypeTag → BodyType → Bytes → Call Parts
  load reg none k data_ = panics
  load reg (some t) k data_ = returns (parts_of (deserialize_shared_message wire reg t k data_))

  unfoldable pub body_of : TypeRegistry wire → Packet wire → Call (Result Parts (ProtoError S))
  unfolding generic_deserialize load
  body_of reg pkt =
      if pkt.header.flags.error
      then elim (tag_of pkt.header) [
        | none ↦ panics
        | some t ↦
            returns
              (ok (none, some (other (record { type_tag = t; description = text_of pkt.body }))))
      ]
      else (if pkt.header.flags.type_tag && pkt.header.flags.body
          then elim pkt.body [
            | none ↦ returns (err protocol_parse_error)
            | some data_ ↦
                generic_deserialize pkt.header.body_type
                  (load reg (tag_of pkt.header) pkt.header.body_type data_)
          ]
          else returns (ok (none, none)))

  abbrev pub respond_with : ℕ → Parts → Call (Result (Item wire) (ProtoError S))
  respond_with mid (body, some e) = returns (ok (event (response mid (err e))))
  respond_with mid (some msg, none) = returns (ok (event (response mid (ok msg))))
  respond_with mid (none, none) = returns (err protocol_parse_error)

  -- The item of a kind, from the header's argument and from what the packet brings.
  unfoldable pub item_of :
      ActionKind → Header wire → Option TypeTag → Parts → Call (Result (Item wire) (ProtoError S))
  item_of response_kind h t parts =
      if h.flags.argument then respond_with h.argument parts else returns (err protocol_parse_error)
  item_of synchronized_kind h t (body, some e) = returns (ok (event (synchronized (err e))))
  item_of synchronized_kind h t (body, none) = returns (ok (event (synchronized (ok tt))))
  item_of error_kind h t (body, some e) = returns (ok (event (Event.error e)))
  item_of error_kind h t (body, none) = returns (err protocol_parse_error)
  item_of batch_complete_kind h (some t) parts = returns (ok (event (batch_complete t h.argument)))
  item_of batch_complete_kind h none parts = panics
  item_of flushed_kind h t parts = returns (ok (event flushed))
  item_of exited_kind h t parts = returns (ok (event exited))
  item_of ready_kind h t parts = returns (ok (event ready))
  item_of pause_kind h t parts = returns (ok (event pause))
  item_of initialize_kind h t parts = returns (ok (action (init h.argument)))
  item_of close_kind h t parts = returns (ok (action close))
  item_of flush_kind h t parts = returns (ok (action flush))
  item_of synchronize_kind h t parts = returns (ok (action sync))
  item_of send_kind h t (some msg, e) = returns (ok (send h.argument msg h.flags.argument))
  item_of send_kind h t (none, e) = returns (err protocol_parse_error)
  item_of nop_kind h t parts = returns (ok nop)

  unfoldable pub deserialize :
      TypeRegistry wire → Packet wire → Call (Result (Item wire) (ProtoError S))
  unfolding body_of item_of
  deserialize reg pkt = elim (body_of reg pkt) [
    | panics ↦ panics
    | returns res ↦ elim res [
      | err e ↦ returns (err e)
      | ok parts ↦ item_of pkt.header.kind pkt.header (tag_of pkt.header) parts
    ]
  ]
