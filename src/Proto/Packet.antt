-- ===== src/Proto/Packet.antt =====
-- Headers, packets and items, and `ProtocolItem::serialize` (crates/remote/src/proto.rs).
use messagebus.Base.{ℕ, Bool, true, false, Option, none, some, if◌then◌else◌}
use messagebus.Message.{Message, Result, ok, err, Call, returns, panics, map_error}
use messagebus.Errors.{GenericError}
use messagebus.Event.{
  Event, Failure, response, synchronized, batch_complete, init_failed, stats_of, flushed, exited,
  ready, pause, Action, init, flush, sync, close, stats,
}
use messagebus.Proto.Registry.{BodyType, utf8, cbor, json, Wire}

-- `ProtocolHeaderActionKind`.
pub data ActionKind : Type 0 where
  nop_kind error_kind send_kind response_kind batch_complete_kind : ActionKind
  flush_kind flushed_kind synchronize_kind synchronized_kind : ActionKind
  close_kind exited_kind initialize_kind ready_kind pause_kind : ActionKind

-- `ProtocolHeaderFlags`, by the four bits that are used.
pub record Flags : Type 0 where
  pub type_tag : Bool
  pub body : Bool
  pub error : Bool
  pub argument : Bool

abbrev pub no_flags : Flags
no_flags = record { type_tag = false; body = false; error = false; argument = false }

-- The errors of crates/remote/src/error.rs that packets meet.
pub data ProtoError (S : Type 0) : Type 0 where
  protocol_parse_error : ProtoError S
  unknown_codec : ProtoError S
  serde_erased : S → ProtoError S

module _ (wire : Wire) where
  open wire use {S, Bytes, empty, into_bytes, write_cbor, write_json, display}

  pub record Header : Type 0 where
    pub kind : ActionKind
    pub type_tag : Option Bytes
    pub flags : Flags
    pub body_type : BodyType
    pub argument : ℕ

  pub record Packet : Type 0 where
    pub header : Header
    pub body : Option Bytes

  pub data Item : Type 0 where
    nop : Item
    event : Event S Message GenericError → Item
    action : Action → Item
    send : ℕ → Message → Bool → Item

  -- `as_shared_ref` and then `generic_serialize`.
  unfoldable pub generic_serialize : BodyType → Message → Bytes → Result Bytes (ProtoError S)
  generic_serialize cbor msg buffer = map_error serde_erased (write_cbor msg buffer)
  generic_serialize json msg buffer = map_error serde_erased (write_json msg buffer)
  generic_serialize _ msg buffer = err unknown_codec

  -- A packet that carries a message.
  abbrev pub with_message :
      ActionKind → ℕ → Bool → BodyType → Message → Bytes → Call (Result Packet (ProtoError S))
  with_message kind arg flagged k msg buffer =
      if msg.shared
      then elim (generic_serialize k msg buffer) [
        | err e ↦ returns (err e)
        | ok data_ ↦ returns (
            ok (record {
              header = record {
                kind = kind;
                type_tag = some (into_bytes msg.type_tag);
                flags = record { type_tag = true; body = true; error = false; argument = flagged };
                body_type = k;
                argument = arg;
              };
              body = some data_;
            }))
      ]
      else returns (err unknown_codec)

  -- A packet that carries the text of an error.
  abbrev pub with_error :
      ActionKind → ℕ → Bool → Failure S GenericError → Call (Result Packet (ProtoError S))
  with_error kind arg flagged e = returns (
      ok (record {
        header = record {
          kind = kind;
          type_tag = some (into_bytes "GenericError");
          flags = record { type_tag = true; body = true; error = true; argument = flagged };
          body_type = utf8;
          argument = arg;
        };
        body = some (into_bytes (display e));
      }))

  abbrev pub bare : ActionKind → BodyType → Call (Result Packet (ProtoError S))
  bare kind k = returns (
      ok (record {
        header = record {
          kind = kind;
          type_tag = none;
          flags = no_flags;
          body_type = k;
          argument = 0;
        };
        body = none;
      }))

  unfoldable pub serialize : BodyType → Bytes → Item → Call (Result Packet (ProtoError S))
  serialize k buffer nop = bare nop_kind k
  serialize k buffer (action close) = bare close_kind k
  serialize k buffer (action flush) = bare flush_kind k
  serialize k buffer (action (init id)) = bare initialize_kind k
  serialize k buffer (action sync) = bare synchronize_kind k
  serialize k buffer (action stats) = panics
  serialize k buffer (send mid msg req) = with_message send_kind mid req k msg buffer
  serialize k buffer (event (response mid (ok msg))) =
      with_message response_kind mid true k msg buffer
  serialize k buffer (event (response mid (err e))) = with_error response_kind mid true e
  serialize k buffer (event (Event.error e)) = with_error error_kind 0 false e
  serialize k buffer (event (batch_complete t n)) = returns (
      ok (record {
        header = record {
          kind = batch_complete_kind;
          type_tag = some (into_bytes t);
          flags = record { type_tag = true; body = false; error = false; argument = true };
          body_type = k;
          argument = n;
        };
        body = none;
      }))
  serialize k buffer (event (synchronized (ok u))) = bare synchronized_kind k
  serialize k buffer (event (synchronized (err e))) = with_error synchronized_kind 0 false e
  serialize k buffer (event (init_failed e)) = with_error ready_kind 0 false e
  serialize k buffer (event ready) = bare ready_kind k
  serialize k buffer (event pause) = bare pause_kind k
  serialize k buffer (event exited) = bare exited_kind k
  serialize k buffer (event flushed) = bare flushed_kind k
  serialize k buffer (event (stats_of st)) = panics
