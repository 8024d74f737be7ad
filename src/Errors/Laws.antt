-- ===== src/Errors/Laws.antt =====
-- What the conversions of src/error.rs keep, and where they panic.
use messagebus.Base.{◌≡◌, refl, ◌↔◌, ◌⊎◌, inl, inr}
use messagebus.Message.{Message, returns, panics}
use messagebus.Errors.Send
use messagebus.Errors.Send.{SendError, closed, full}
use messagebus.Errors.{
  BoxedError, StdSyncSendError, Error, send_error, try_again, no_response, no_receivers,
  add_listener_error, message_cast_error, not_ready, other, serialization, other_boxed,
  wrong_message_type, type_tag_not_registered, unknown, map_msg, into_dyn, unbox, specify,
  from_typed,
}

-- Boxing the message of a typed error by `from_typed`, which has an arm for each case, is boxing
-- it by `map_msg`, whatever the error.
pub from_typed-eq-map_msg :
    {S M E : Type 0} (box : M → Message) (e : Error S M E) → from_typed box e ≡ map_msg box e
unfolding from_typed map_msg Send.map_msg
from_typed-eq-map_msg box (send_error (closed m)) = refl
from_typed-eq-map_msg box (send_error (full m)) = refl
from_typed-eq-map_msg box (try_again m) = refl
from_typed-eq-map_msg box _ = refl

abbrev pub IsClosed : {M : Type 0} → SendError M → Type 0
IsClosed (closed m) = Unit
IsClosed (full m) = ⊥

-- `SendError::into_boxed` gives the error that `map_msg` gives exactly when the bus was closed:
-- a full queue is reported as a closed bus.
pub into_boxed_iff :
    {M : Type 0} (box : M → Message) (e : SendError M)
    → (Send.into_boxed box e ≡ Send.map_msg box e) ↔ IsClosed e
unfolding Send.into_boxed Send.map_msg
into_boxed_iff box (closed m) = (λ _. tt, λ _. refl)
into_boxed_iff box (full m) = (λ h. cc, λ h. absurd h)

-- An error that holds a message: these three are the cases that `specify` refuses.
abbrev pub HoldsMessage : {S M E : Type 0} → Error S M E → Type 0
HoldsMessage (send_error x) = Unit
HoldsMessage (try_again x) = Unit
HoldsMessage (wrong_message_type x) = Unit
HoldsMessage _ = ⊥

-- `specify` panics on every error that holds a message; on any other it returns an error that
-- holds none either, and forgetting the message type of that gives back the error it was given.
pub specify_lem :
    {S M E : Type 0} (e : Error S (Unit {0}) E)
    → (HoldsMessage e × (specify {M = M} e ≡ panics))
      ⊎ ((e' : Error S M E) × (specify e ≡ returns e')
          × (¬ HoldsMessage e)
          × (¬ HoldsMessage e')
          × (map_msg (λ _. tt) e' ≡ e))
unfolding specify map_msg
specify_lem (send_error x) = inl (tt, refl)
specify_lem (try_again x) = inl (tt, refl)
specify_lem (wrong_message_type x) = inl (tt, refl)
specify_lem no_response = inr (no_response, refl, (λ h. h), (λ h. h), refl)
specify_lem no_receivers = inr (no_receivers, refl, (λ h. h), (λ h. h), refl)
specify_lem add_listener_error = inr (add_listener_error, refl, (λ h. h), (λ h. h), refl)
specify_lem message_cast_error = inr (message_cast_error, refl, (λ h. h), (λ h. h), refl)
specify_lem not_ready = inr (not_ready, refl, (λ h. h), (λ h. h), refl)
specify_lem (other x) = inr (other x, refl, (λ h. h), (λ h. h), refl)
specify_lem (serialization x) = inr (serialization x, refl, (λ h. h), (λ h. h), refl)
specify_lem (other_boxed x) = inr (other_boxed x, refl, (λ h. h), (λ h. h), refl)
specify_lem (type_tag_not_registered x) =
    inr (type_tag_not_registered x, refl, (λ h. h), (λ h. h), refl)
specify_lem (unknown x) = inr (unknown x, refl, (λ h. h), (λ h. h), refl)

-- An error sent as a dynamic one and unboxed again never panics: the handler's own error comes
-- back as what `from` makes of its boxed form, and any other error as it would have come back without
-- having been sent as a dynamic one.
pub unbox-into_dyn :
    {S M E U : Type 0} (c : StdSyncSendError E) (from : BoxedError → U) (e : Error S M E)
    → ((x : E) × (e ≡ other x)
        × (unbox from (into_dyn c e)
            ≡ returns (other (from (record { type_tag = c.type_tag x; display = c.display x })))))
      ⊎ ((e' : Error S M U) × (unbox from (into_dyn c e) ≡ returns e')
          × (unbox from e ≡ returns e'))
unfolding unbox into_dyn
unbox-into_dyn c from (other x) = inl (x, refl, refl)
unbox-into_dyn c from _ = inr (_, refl, refl)
