-- ===== src/Errors.antt =====
-- The error type of the bus and its conversions (src/error.rs).
-- `S` stands for `erased_serde::Error`, which no code of the repository looks into.
pub mod Send
pub mod Laws
pub mod Tests
use messagebus.Base.{String}
use messagebus.Message.{TypeTag, Message, Call, returns, panics, Result, ok, err}
use Send
use Send.{SendError, closed, full}

pub record GenericError : Type 0 where
  pub type_tag : TypeTag
  pub description : String

-- `Box<dyn StdSyncSendError>`: a boxed error answers its type tag and its text.
pub record BoxedError : Type 0 where
  pub type_tag : TypeTag
  pub display : String

-- The trait `StdSyncSendError`: `TypeTagged` and `Display`.
pub record StdSyncSendError (E : Type 0) : Type 0 where
  pub type_tag : E → TypeTag
  pub display : E → String

pub data Error (S M E : Type 0) : Type 0 where
  send_error : SendError M → Error S M E
  try_again : M → Error S M E
  no_response : Error S M E
  no_receivers : Error S M E
  add_listener_error : Error S M E
  message_cast_error : Error S M E
  not_ready : Error S M E
  other : E → Error S M E
  serialization : S → Error S M E
  other_boxed : BoxedError → Error S M E
  wrong_message_type : M → Error S M E
  type_tag_not_registered : TypeTag → Error S M E
  unknown : String → Error S M E

module _ {S M E : Type 0} where
  abbrev pub send_closed : M → Error S M E
  send_closed m = send_error (closed m)

  abbrev pub send_full : M → Error S M E
  send_full m = send_error (full m)

  unfoldable pub map_msg : {U : Type 0} → (M → U) → Error S M E → Error S U E
  map_msg f (send_error x) = send_error (Send.map_msg f x)
  map_msg f (try_again x) = try_again (f x)
  map_msg f no_response = no_response
  map_msg f no_receivers = no_receivers
  map_msg f add_listener_error = add_listener_error
  map_msg f message_cast_error = message_cast_error
  map_msg f not_ready = not_ready
  map_msg f (other x) = other x
  map_msg f (serialization x) = serialization x
  map_msg f (other_boxed x) = other_boxed x
  map_msg f (wrong_message_type x) = wrong_message_type (f x)
  map_msg f (type_tag_not_registered x) = type_tag_not_registered x
  map_msg f (unknown x) = unknown x

  unfoldable pub map_err : {U : Type 0} → (E → U) → Error S M E → Error S M U
  map_err f (send_error x) = send_error x
  map_err f (try_again x) = try_again x
  map_err f no_response = no_response
  map_err f no_receivers = no_receivers
  map_err f add_listener_error = add_listener_error
  map_err f message_cast_error = message_cast_error
  map_err f not_ready = not_ready
  map_err f (other x) = other (f x)
  map_err f (serialization x) = serialization x
  map_err f (other_boxed x) = other_boxed x
  map_err f (wrong_message_type x) = wrong_message_type x
  map_err f (type_tag_not_registered x) = type_tag_not_registered x
  map_err f (unknown x) = unknown x

  unfoldable pub try_unwrap : Error S M E → Result E (Error S M E)
  try_unwrap (other x) = ok x
  try_unwrap e = err e

  unfoldable pub into_dyn : StdSyncSendError E → Error S M E → Error S M GenericError
  into_dyn e (send_error x) = send_error x
  into_dyn e (try_again x) = try_again x
  into_dyn e no_response = no_response
  into_dyn e no_receivers = no_receivers
  into_dyn e add_listener_error = add_listener_error
  into_dyn e message_cast_error = message_cast_error
  into_dyn e not_ready = not_ready
  into_dyn e (other x) = other_boxed (record { type_tag = e.type_tag x; display = e.display x })
  into_dyn e (serialization x) = serialization x
  into_dyn e (other_boxed x) = other_boxed x
  into_dyn e (wrong_message_type x) = wrong_message_type x
  into_dyn e (type_tag_not_registered x) = type_tag_not_registered x
  into_dyn e (unknown x) = unknown x

  -- `map`: the boxed error becomes a typed one; a typed one is a panic.
  unfoldable pub unbox : {U : Type 0} → (BoxedError → U) → Error S M E → Call (Error S M U)
  unbox from (send_error x) = returns (send_error x)
  unbox from (try_again x) = returns (try_again x)
  unbox from no_response = returns no_response
  unbox from no_receivers = returns no_receivers
  unbox from add_listener_error = returns add_listener_error
  unbox from message_cast_error = returns message_cast_error
  unbox from not_ready = returns not_ready
  unbox from (other x) = panics
  unbox from (serialization x) = returns (serialization x)
  unbox from (other_boxed x) = returns (other (from x))
  unbox from (wrong_message_type x) = returns (wrong_message_type x)
  unbox from (type_tag_not_registered x) = returns (type_tag_not_registered x)
  unbox from (unknown x) = returns (unknown x)

-- `specify` gives an error that carries no message the type of one that could.
unfoldable pub specify : {S M E : Type 0} → Error S (Unit {0}) E → Call (Error S M E)
specify (send_error x) = panics
specify (try_again x) = panics
specify no_response = returns no_response
specify no_receivers = returns no_receivers
specify add_listener_error = returns add_listener_error
specify message_cast_error = returns message_cast_error
specify not_ready = returns not_ready
specify (other x) = returns (other x)
specify (serialization x) = returns (serialization x)
specify (other_boxed x) = returns (other_boxed x)
specify (wrong_message_type x) = panics
specify (type_tag_not_registered x) = returns (type_tag_not_registered x)
specify (unknown x) = returns (unknown x)

unfoldable pub from_typed : {S M E : Type 0} → (M → Message) → Error S M E → Error S Message E
from_typed box (send_error (closed m)) = send_error (closed (box m))
from_typed box (send_error (full m)) = send_error (full (box m))
from_typed box (try_again x) = try_again (box x)
from_typed box no_response = no_response
from_typed box no_receivers = no_receivers
from_typed box add_listener_error = add_listener_error
from_typed box message_cast_error = message_cast_error
from_typed box not_ready = not_ready
from_typed box (other x) = other x
from_typed box (serialization x) = serialization x
from_typed box (other_boxed x) = other_boxed x
from_typed box (wrong_message_type x) = wrong_message_type (box x)
from_typed box (type_tag_not_registered x) = type_tag_not_registered x
from_typed box (unknown x) = unknown x
