-- ===== src/Proto/Registry.antt =====
-- What the packets need of other crates, and the registry of message types (src/type_tag.rs).
use messagebus.Base.{◌≡◌, String, Option, none, some, List, [], String-eq}
use messagebus.Message.{TypeTag, Message, Result, err, map_error}
use messagebus.Errors.{Error, GenericError, serialization, type_tag_not_registered}
use messagebus.Event.{Failure}
use messagebus.Table.{get, insert}

pub data BodyType : Type 0 where
  none_ utf8 cbor message_pack json bson : BodyType

-- Bytes and texts of Rust's library, `erased_serde` with its two serializers, and the texts that
-- `thiserror` derives. A serializer adds to what the buffer holds, and the body is the whole buffer.
pub record Wire : Type 1 where
  -- `erased_serde::Error`.
  pub S : Type 0
  pub Bytes : Type 0
  pub empty : Bytes
  pub into_bytes : String → Bytes
  pub from_utf8_lossy : Bytes → String
  pub from-into : (s : String) → from_utf8_lossy (into_bytes s) ≡ s
  pub write_cbor : Message → Bytes → Result Bytes S
  pub write_json : Message → Bytes → Result Bytes S
  pub display : Failure S GenericError → String

module _ (wire : Wire) where
  open wire use {S, Bytes}

  -- A type's own `deserialize`, at the deserializer that the body type asks for.
  abbrev pub Loader : Type 0
  Loader = BodyType → Bytes → Result Message S

  -- `TypeRegistry`: there is no table before the first type is registered.
  abbrev pub TypeRegistry : Type 0
  TypeRegistry = Option (List (TypeTag × Loader))

  abbrev table_of : TypeRegistry → List (TypeTag × Loader)
  table_of none = []
  table_of (some m) = m

  unfoldable pub register : TypeTag → Loader → TypeRegistry → TypeRegistry
  register tt' de reg = some (insert tt' de (table_of reg))

  -- A failure of the loader is a serialization error, which `specify` only retypes.
  unfoldable pub deserialize_shared_message :
      TypeRegistry → TypeTag → BodyType → Bytes → Result Message (Error S Message GenericError)
  deserialize_shared_message none tt' k data_ = err (type_tag_not_registered tt')
  deserialize_shared_message (some m) tt' k data_ = elim (get tt' m) [
    | none ↦ err (type_tag_not_registered tt')
    | some de ↦ map_error serialization (de k data_)
  ]
