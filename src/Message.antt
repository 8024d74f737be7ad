-- ===== src/Message.antt =====
-- Messages (src/envelop.rs). A trait object `dyn Message` is what its methods can be asked for:
-- the type that it is cast by, its type tag, and whether it was derived `shared` and `clone`.
use messagebus.Base.{ℕ, String, Bool, Option, none, some, ◌==◌, ℕ-eq, if◌then◌else◌}

-- `TypeTag` is `Cow<'static, str>`; tags are compared as texts.
abbrev pub TypeTag : Type 0
TypeTag = String

pub record Message : Type 0 where
  pub type_id : ℕ
  pub type_tag : TypeTag
  pub shared : Bool
  pub cloneable : Bool
  pub payload : String

-- `as_shared_ref`, `as_shared_boxed`: a message that was not derived `shared` has no shared view.
unfoldable pub as_shared : Message → Option Message
as_shared m = if m.shared then some m else none

unfoldable pub try_clone_boxed : Message → Option Message
try_clone_boxed m = if m.cloneable then some m else none

-- `as_any_boxed().downcast::<M>()`, for the type whose `TypeId` is `t`.
unfoldable pub downcast : ℕ → Message → Option Message
downcast t m = if m.type_id == t then some m else none

-- A call that may panic.
pub data Call {ℓ} (A : Type ℓ) : Type ℓ where
  returns : A → Call A
  panics : Call A

pub data Result {ℓ κ} (A : Type ℓ) (X : Type κ) : Type (ℓ ⊔ κ) where
  ok : A → Result A X
  err : X → Result A X

module _ {ℓ κ} {A : Type ℓ} {X : Type κ} where
  abbrev pub map_ok {μ} : {B : Type μ} → (A → B) → Result A X → Result B X
  map_ok f (ok a) = ok (f a)
  map_ok f (err x) = err x

  abbrev pub map_error {μ} : {Y : Type μ} → (X → Y) → Result A X → Result A Y
  map_error f (ok a) = ok a
  map_error f (err x) = err (f x)
