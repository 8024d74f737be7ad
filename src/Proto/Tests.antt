-- ===== src/Proto/Tests.antt =====
-- Packets of crates/remote/src/proto.rs in a codec that writes a message as its payload.
use messagebus.Base.{◌≡◌, refl, inl, String, true, false, Option, none, some, List, [], ◌∷◌, ◌++◌}
use messagebus.Message.{Message, Result, ok, err, returns}
use messagebus.Errors.{type_tag_not_registered}
use messagebus.Table
use messagebus.Proto.Registry.{
  Wire, cbor, json, utf8, TypeRegistry, register, deserialize_shared_message,
}
use messagebus.Proto.Packet.{
  Item, send, Packet, ProtoError, error_kind, generic_serialize, serialize,
}
use messagebus.Proto.Decode.{deserialize}
use messagebus.Proto.RoundTrip.{IsReadable, received, deserialize-serialize}
use messagebus.Proto.Panics.{deserialize_tagged}

abbrev pub text : List String → String
text [] = ""
text (s ∷ ss) = s

abbrev pub plain : Wire
plain = record {
  S = Unit {0};
  Bytes = List String;
  empty = [];
  into_bytes = λ s. s ∷ [];
  from_utf8_lossy = text;
  from-into = λ s. refl;
  write_cbor = λ msg buffer. ok (buffer ++ msg.payload ∷ []);
  write_json = λ msg buffer. ok (buffer ++ msg.payload ∷ []);
  display = λ e. "failed";
}

abbrev pub note : String → Message
note s = record { type_id = 3; type_tag = "Note"; shared = true; cloneable = true; payload = s }

abbrev pub notes : TypeRegistry plain
notes = register plain "Note" (λ k data_. ok (note (text data_))) none

hello-IsReadable : IsReadable plain notes cbor (note "hello")
unfolding generic_serialize deserialize_shared_message register Table.get Table.insert
hello-IsReadable = record {
  shared = refl;
  codec = inl refl;
  data_ = "hello" ∷ [];
  written = refl;
  read = refl;
}

deserialize-serialize_example :
    (pkt : Packet plain) × (serialize plain cbor [] (send 12 (note "hello") true)
      ≡ returns (ok pkt))
    × (deserialize plain notes pkt ≡ returns (ok (received plain (send 12 (note "hello") true))))
deserialize-serialize_example =
    deserialize-serialize plain notes cbor (send 12 (note "hello") true) hello-IsReadable

hello-written : generic_serialize plain json (note "hello") [] ≡ ok ("hello" ∷ [])
unfolding generic_serialize
hello-written = refl

hello-unknown :
    deserialize_shared_message plain none "Note" json ("hello" ∷ [])
    ≡ err (type_tag_not_registered "Note")
unfolding deserialize_shared_message
hello-unknown = refl

abbrev failure : Option (List String) → Packet plain
failure t = record {
  header = record {
    kind = error_kind;
    type_tag = t;
    flags = record { type_tag = true; body = true; error = true; argument = false };
    body_type = utf8;
    argument = 0;
  };
  body = none;
}

deserialize_tagged_example :
    (res : Result (Item plain) (ProtoError plain.S)) × (deserialize plain notes
        (failure (some ("GenericError" ∷ [])))
      ≡ returns res)
deserialize_tagged_example =
    deserialize_tagged plain notes (failure (some ("GenericError" ∷ []))) "GenericError" refl
