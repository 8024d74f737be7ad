-- ===== src/Wrapper/Accept.antt =====
-- The types of messages, responses and errors that a receiver takes part in: `iter_types`,
-- `accept_msg` and `accept_req` of `ReceiverWrapper` (src/receiver.rs).
use messagebus.Base.{
  Bool, true, false, Option, none, some, List, [], ◌∷◌, ◌==◌, String-eq, if◌then◌else◌,
}
use messagebus.Message.{TypeTag}

-- `TypeTagAcceptItem`.
abbrev pub AcceptItem : Type 0
AcceptItem = TypeTag × Option (TypeTag × TypeTag)

pub record Types : Type 0 where
  pub msg : TypeTag
  pub resp : TypeTag
  pub error : TypeTag

unfoldable pub iter_types : Types → List AcceptItem
iter_types t = (t.msg, some (t.resp, t.error)) ∷ []

-- An absent tag asks for nothing.
abbrev pub asks : Option TypeTag → TypeTag → Bool
asks none t = true
asks (some a) t = a == t

unfoldable pub accept_req : Types → TypeTag → Option TypeTag → Option TypeTag → Bool
accept_req t req resp error =
    if asks resp t.resp then (if asks error t.error then req == t.msg else false) else false

unfoldable pub accept_msg : Types → TypeTag → Bool
accept_msg t msg = msg == t.msg
