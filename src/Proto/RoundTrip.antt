-- ===== src/Proto/RoundTrip.antt =====
-- What arrives of an item that is sent through a packet (crates/remote/src/proto.rs).
use messagebus.Base.{ℕ, ◌≡◌, refl, ◌⊎◌, inl, inr, Bool, true, false, some, String-eq}
use messagebus.Message.{Message, Result, ok, err, returns}
use messagebus.Errors.{Error, GenericError, other, type_tag_not_registered, map_msg}
use messagebus.Event.{
  Failure, response, synchronized, batch_complete, error, init_failed, stats_of, flushed, exited,
  ready, pause, init, flush, sync, close, stats,
}
use messagebus.Proto.Registry.{BodyType, cbor, json, Wire, TypeRegistry, deserialize_shared_message}
use messagebus.Proto.Packet.{
  Packet, Item, nop, event, action, send, generic_serialize, serialize, with_message, ActionKind,
  send_kind, response_kind, protocol_parse_error,
}
use messagebus.Proto.Decode.{
  deserialize, body_of, item_of, generic_deserialize, load, Parts, tag_of, parts_of,
}

module _ (wire : Wire) where
  open wire use {S, Bytes, empty, from_utf8_lossy, from-into, display}

  -- The message is shared, the codec writes it into an empty buffer, and the registry reads that back.
  pub record IsReadable (reg : TypeRegistry wire) (k : BodyType) (msg : Message) : Type 0 where
    pub shared : msg.shared ≡ true
    pub codec : (k ≡ cbor) ⊎ (k ≡ json)
    pub data_ : Bytes
    pub written : generic_serialize wire k msg empty ≡ ok data_
    pub read : deserialize_shared_message wire reg msg.type_tag k data_ ≡ ok msg

  -- What an item needs to get through: a message must be readable, and statistics are not sent.
  abbrev pub Passes : TypeRegistry wire → BodyType → Item wire → Type 0
  Passes reg k (send mid msg req) = IsReadable reg k msg
  Passes reg k (event (response mid (ok msg))) = IsReadable reg k msg
  Passes reg k (event (stats_of st)) = ⊥
  Passes reg k (action stats) = ⊥
  Passes reg k it = Unit

  -- An error arrives as its text, under the type tag `GenericError`.
  abbrev pub lost : Failure S GenericError → Failure S GenericError
  lost e = other (record { type_tag = "GenericError"; description = display e })

  -- What arrives. The id of `Init` is lost, and a failed initialization arrives as `Ready`.
  abbrev pub received : Item wire → Item wire
  received (action (init id)) = action (init 0)
  received (event (response mid (err e))) = event (response mid (err (lost e)))
  received (event (error e)) = event (error (lost e))
  received (event (synchronized (err e))) = event (synchronized (err (lost e)))
  received (event (init_failed e)) = event ready
  received it = it

  abbrev Arrives : TypeRegistry wire → BodyType → Item wire → Type 0
  Arrives reg k it =
      (pkt : Packet wire) × (serialize wire k empty it ≡ returns (ok pkt))
      × (deserialize wire reg pkt ≡ returns (ok (received it)))

  abbrev message_packet : ActionKind → ℕ → Bool → BodyType → Message → Bytes → Packet wire
  message_packet kind mid flagged k msg data_ = record {
    header = record {
      kind = kind;
      type_tag = some (wire.into_bytes msg.type_tag);
      flags = record { type_tag = true; body = true; error = false; argument = flagged };
      body_type = k;
      argument = mid;
    };
    body = some data_;
  }

  generic_deserialize_lem :
      (k : BodyType) (p : Parts wire)
      → (k ≡ cbor) ⊎ (k ≡ json)
      → generic_deserialize wire k (returns p) ≡ returns (ok p)
  unfolding generic_deserialize
  generic_deserialize_lem k p (inl e) = rw e refl
  generic_deserialize_lem k p (inr e) = rw e refl

  with_message_lem :
      (k : BodyType) (kind : ActionKind) (mid : ℕ) (flagged : Bool) (msg : Message) (data_ : Bytes)
      → msg.shared ≡ true
      → generic_serialize wire k msg empty ≡ ok data_
      → with_message wire kind mid flagged k msg empty
        ≡ returns (ok (message_packet kind mid flagged k msg data_))
  with_message_lem k kind mid flagged msg data_ shared written = rw (written, shared) refl

  body_of_lem :
      (reg : TypeRegistry wire) (k : BodyType) (kind : ActionKind) (mid : ℕ) (flagged : Bool)
      (msg : Message) (data_ : Bytes) (res : Result Message (Error S Message GenericError))
      → (k ≡ cbor) ⊎ (k ≡ json)
      → deserialize_shared_message wire reg msg.type_tag k data_ ≡ res
      → body_of wire reg (message_packet kind mid flagged k msg data_)
        ≡ returns (ok (parts_of wire res))
  unfolding body_of load
  body_of_lem reg k kind mid flagged msg data_ res codec read =
      rw (from-into msg.type_tag, read) (generic_deserialize_lem k (parts_of wire res) codec)

  deserialize_lem :
      (reg : TypeRegistry wire) (pkt : Packet wire) (parts : Parts wire)
      → body_of wire reg pkt ≡ returns (ok parts)
      → deserialize wire reg pkt
        ≡ item_of wire pkt.header.kind pkt.header (tag_of wire pkt.header) parts
  unfolding deserialize
  deserialize_lem reg pkt parts e = rw (e, deserialize) refl

  send-Arrives :
      (reg : TypeRegistry wire) (k : BodyType) (mid : ℕ) (msg : Message) (req : Bool)
      → IsReadable reg k msg
      → Arrives reg k (send mid msg req)
  unfolding serialize item_of
  send-Arrives reg k mid msg req r = (
    message_packet send_kind mid req k msg r.data_,
    with_message_lem k send_kind mid req msg r.data_ r.shared r.written,
    deserialize_lem reg _ _ (body_of_lem reg k send_kind mid req msg r.data_ _ r.codec r.read),
  )

  response-Arrives :
      (reg : TypeRegistry wire) (k : BodyType) (mid : ℕ) (msg : Message)
      → IsReadable reg k msg
      → Arrives reg k (event (response mid (ok msg)))
  unfolding serialize item_of
  response-Arrives reg k mid msg r = (
    message_packet response_kind mid true k msg r.data_,
    with_message_lem k response_kind mid true msg r.data_ r.shared r.written,
    deserialize_lem reg _ _ (body_of_lem reg k response_kind mid true msg r.data_ _ r.codec r.read),
  )

  -- An item written by `serialize` into an empty buffer and read by `deserialize` arrives as it was
  -- sent, without a panic or an error, provided that it is not a report of statistics and that its
  -- message, if it has one, is shared, in a codec that writes it, and registered so that it is read
  -- back. Three things change on the way: an error arrives as its text, the id of `Init` becomes 0,
  -- and a failed initialization arrives as `Ready`.
  pub deserialize-serialize :
      (reg : TypeRegistry wire) (k : BodyType) (it : Item wire)
      → Passes reg k it
      → (pkt : Packet wire) × (serialize wire k empty it ≡ returns (ok pkt))
        × (deserialize wire reg pkt ≡ returns (ok (received it)))
  unfolding serialize deserialize body_of item_of
  deserialize-serialize reg k nop h = (_, refl, refl)
  deserialize-serialize reg k (send mid msg req) h = send-Arrives reg k mid msg req h
  deserialize-serialize reg k (action (init id)) h = (_, refl, refl)
  deserialize-serialize reg k (action flush) h = (_, refl, refl)
  deserialize-serialize reg k (action sync) h = (_, refl, refl)
  deserialize-serialize reg k (action close) h = (_, refl, refl)
  deserialize-serialize reg k (action stats) h = absurd h
  deserialize-serialize reg k (event (response mid (ok msg))) h = response-Arrives reg k mid msg h
  deserialize-serialize reg k (event (response mid (err e))) h =
      (_, refl, rw (from-into (display e), from-into "GenericError") refl)
  deserialize-serialize reg k (event (synchronized (ok u))) h = (_, refl, refl)
  deserialize-serialize reg k (event (synchronized (err e))) h =
      (_, refl, rw (from-into (display e), from-into "GenericError") refl)
  deserialize-serialize reg k (event (batch_complete t n)) h = (_, refl, rw (from-into t) refl)
  deserialize-serialize reg k (event (error e)) h =
      (_, refl, rw (from-into (display e), from-into "GenericError") refl)
  deserialize-serialize reg k (event (init_failed e)) h = (_, refl, refl)
  deserialize-serialize reg k (event (stats_of st)) h = absurd h
  deserialize-serialize reg k (event flushed) h = (_, refl, refl)
  deserialize-serialize reg k (event exited) h = (_, refl, refl)
  deserialize-serialize reg k (event ready) h = (_, refl, refl)
  deserialize-serialize reg k (event pause) h = (_, refl, refl)

  -- A message that is sent in a type that the registry does not know arrives as nothing at all: the
  -- packet of a plain message is refused, and the packet of a response becomes the response that the
  -- type tag is not registered, under the same mid.
  pub deserialize_unregistered :
      (reg : TypeRegistry wire) (k : BodyType) (mid : ℕ) (msg : Message) (data_ : Bytes)
      → (k ≡ cbor) ⊎ (k ≡ json)
      → msg.shared ≡ true
      → generic_serialize wire k msg empty ≡ ok data_
      → deserialize_shared_message wire reg msg.type_tag k data_
        ≡ err (type_tag_not_registered msg.type_tag)
      → (p q : Packet wire) × (serialize wire k empty (send mid msg false) ≡ returns (ok p))
        × (deserialize wire reg p ≡ returns (err protocol_parse_error))
        × (serialize wire k empty (event (response mid (ok msg))) ≡ returns (ok q))
        × (deserialize wire reg q
            ≡ returns (ok (event (response mid (err (type_tag_not_registered msg.type_tag))))))
  unfolding serialize item_of map_msg
  deserialize_unregistered reg k mid msg data_ codec shared written unknown_tag = (
    message_packet send_kind mid false k msg data_,
    message_packet response_kind mid true k msg data_,
    with_message_lem k send_kind mid false msg data_ shared written,
    deserialize_lem reg _ _ (body_of_lem reg k send_kind mid false msg data_ _ codec unknown_tag),
    with_message_lem k response_kind mid true msg data_ shared written,
    deserialize_lem reg _ _
        (body_of_lem reg k response_kind mid true msg data_ _ codec unknown_tag),
  )
