-- ===== src/Casts.antt =====
-- The casts behind `dyn ReceiverTrait`: `AnyReceiver` and `AnyWrapperRef` of src/receiver.rs, which take
-- references to trait objects apart (src/trait_object.rs) and put them together again, with what
-- `Receiver` does with them.
pub mod Laws
pub mod Tests
use messagebus.Base.{ℕ, ◌≡◌, Bool, Option, none, some, Eq, ◌==◌, if◌then◌else◌}
use messagebus.Message.{Call, returns, panics}
use messagebus.Wrapper.{Waiter, with_error_type, without_error_type, boxed, boxed_with_error}

-- The types `dyn Trait` that are cast to, for types `T` of messages, responses and errors.
pub data Dyn (T : Type 0) : Type 0 where
  send_typed_receiver : T → Dyn T
  wrapper_return_type_only : T → Dyn T
  wrapper_error_type_only : T → Dyn T
  wrapper_return_type_and_error : T → T → Dyn T

-- What the language gives: `TypeId::of`, which tells types apart, and for each value and each trait
-- that it implements the two pointers of a reference `&dyn Trait`.
pub record Rust : Type 1 where
  pub T : Type 0
  pub TypeId : Type 0
  pub eq : Eq TypeId
  pub type_id : Dyn T → TypeId
  pub type_id_inj : (s t : Dyn T) → type_id s ≡ type_id t → s ≡ t
  pub Ptr : Type 0
  pub Value : Type 0
  pub address : Value → Ptr
  pub vtable_of : Value → Dyn T → Ptr

module _ (rust : Rust) where
  open rust use {T, Ptr, Value, eq, type_id, address, vtable_of}

  pub record TraitObject : Type 0 where
    pub object : Ptr
    pub vtable : Ptr

  -- `rcvr as &dyn Trait`.
  unfoldable pub as_dyn : Value → Dyn T → TraitObject
  as_dyn v d = record { object = address v; vtable = vtable_of v d }

  pub record AnyReceiver : Type 0 where
    pub object : Ptr
    pub typed : rust.TypeId × Ptr

  pub record AnyWrapperRef : Type 0 where
    pub object : Ptr
    pub wrapper_r : rust.TypeId × Ptr
    pub wrapper_e : rust.TypeId × Ptr
    pub wrapper_re : rust.TypeId × Ptr

  -- The id of a trait, and the vtable of a value for it.
  abbrev pub entry : Value → Dyn T → rust.TypeId × Ptr
  entry v d = (type_id d, (as_dyn v d).vtable)

  -- `AnyReceiver::new`, for messages of the type `m`.
  unfoldable pub new_any_receiver : T → Value → AnyReceiver
  unfolding as_dyn
  new_any_receiver m v =
      let d : Dyn T = send_typed_receiver m in
      record { object = (as_dyn v d).object; typed = entry v d }

  -- `AnyWrapperRef::new`, for responses of the type `r` and errors of the type `e`.
  unfoldable pub new_any_wrapper : T → T → Value → AnyWrapperRef
  unfolding as_dyn
  new_any_wrapper r e v = record {
    object = (as_dyn v (wrapper_return_type_only r)).object;
    wrapper_r = entry v (wrapper_return_type_only r);
    wrapper_e = entry v (wrapper_error_type_only e);
    wrapper_re = entry v (wrapper_return_type_and_error r e);
  }

  -- The test of the id and the `transmute` of a cast.
  unfoldable pub cast : Dyn T → Ptr → rust.TypeId × Ptr → Option TraitObject
  cast d object (id, vtable) =
      if eq.beq id (type_id d) then some (record { object = object; vtable = vtable }) else none

  unfoldable pub cast_send_typed : T → AnyReceiver → Option TraitObject
  unfolding cast
  cast_send_typed m a = cast (send_typed_receiver m) a.object a.typed

  unfoldable pub cast_ret_only : T → AnyWrapperRef → Option TraitObject
  unfolding cast
  cast_ret_only r w = cast (wrapper_return_type_only r) w.object w.wrapper_r

  unfoldable pub cast_error_only : T → AnyWrapperRef → Option TraitObject
  unfolding cast
  cast_error_only e w = cast (wrapper_error_type_only e) w.object w.wrapper_e

  unfoldable pub cast_ret_and_error : T → T → AnyWrapperRef → Option TraitObject
  unfolding cast
  cast_ret_and_error r e w = cast (wrapper_return_type_and_error r e) w.object w.wrapper_re

  -- What is behind `dyn ReceiverTrait`: a `ReceiverWrapper` for messages, responses and errors of three
  -- types around an inner receiver, or a `RelayWrapper`.
  pub data Inner : Type 0 where
    receiver_wrapper : T → T → T → Value → Value → Inner
    relay_wrapper : Inner

  unfoldable pub typed : Inner → Option AnyReceiver
  unfolding new_any_receiver
  typed (receiver_wrapper m r e inner self) = some (new_any_receiver m inner)
  typed relay_wrapper = none

  unfoldable pub wrapper : Inner → Option AnyWrapperRef
  unfolding new_any_wrapper
  wrapper (receiver_wrapper m r e inner self) = some (new_any_wrapper r e self)
  wrapper relay_wrapper = none

  -- `unwrap` of a cast, and the call on what it gives.
  abbrev pub unwrapped {ℓ} : {A : Type ℓ} → Option TraitObject → (TraitObject → A) → Call A
  unwrapped none call = panics
  unwrapped (some x) call = returns (call x)

  -- How `Receiver::send` reaches the inner receiver: on a typed receiver, or boxed.
  pub data Reached : Type 0 where
    typed_at : TraitObject → Reached
    boxed_send : Reached

  unfoldable pub reach : T → Inner → Call Reached
  unfolding typed cast_send_typed
  reach m x = elim (typed x) [
    | none ↦ returns boxed_send
    | some a ↦ unwrapped (cast_send_typed m a) typed_at
  ]

  -- The object whose `add_response_listener` is called and the waiter that it adds for the channel `ch`;
  -- a relay keeps the sender of a boxed response.
  pub data Listening : Type 0 where
    on_wrapper : TraitObject → Waiter → Listening
    on_inner : Waiter → Listening

  unfoldable pub add_response_waiter_boxed : ℕ → Inner → Call Listening
  add_response_waiter_boxed ch x = returns (on_inner (boxed ch))

  unfoldable pub add_response_waiter_boxed_we : T → ℕ → Inner → Call Listening
  unfolding wrapper cast_error_only
  add_response_waiter_boxed_we e ch x = elim (wrapper x) [
    | none ↦ panics
    | some w ↦ unwrapped (cast_error_only e w) (λ obj. on_wrapper obj (boxed_with_error ch))
  ]

  unfoldable pub add_response_waiter : T → ℕ → Inner → Call Listening
  unfolding wrapper cast_ret_only
  add_response_waiter r ch x = elim (wrapper x) [
    | none ↦ returns (on_inner (boxed ch))
    | some w ↦ unwrapped (cast_ret_only r w) (λ obj. on_wrapper obj (without_error_type ch))
  ]

  unfoldable pub add_response_waiter_we : T → T → ℕ → Inner → Call Listening
  unfolding wrapper cast_ret_and_error
  add_response_waiter_we r e ch x = elim (wrapper x) [
    | none ↦ panics
    | some w ↦ unwrapped (cast_ret_and_error r e w) (λ obj. on_wrapper obj (with_error_type ch))
  ]
