-- ===== src/MessageTable.antt =====
-- The types that a remote relay takes part in: `MessageTable` of crates/remote/src/relays/mod.rs.
pub mod Laws
pub mod Listing
pub mod Tests
use messagebus.Base.{
  Bool, true, false, ◌&&◌, ◌||◌, Option, none, some, List, [], ◌∷◌, ◌++◌, String-eq,
}
use messagebus.Message.{TypeTag}
use messagebus.Table
use messagebus.Table.{get, insert}
use messagebus.Wrapper.Accept.{AcceptItem, asks}

abbrev pub MessageTable : Type 0
MessageTable = List (TypeTag × List (Option (TypeTag × TypeTag)))

abbrev pub listed : Option (List (Option (TypeTag × TypeTag))) → List (Option (TypeTag × TypeTag))
listed none = []
listed (some v) = v

unfoldable pub add_any : TypeTag → Option (TypeTag × TypeTag) → MessageTable → MessageTable
add_any req resp_err t = insert req (listed (get req t) ++ resp_err ∷ []) t

unfoldable pub add_request : TypeTag → TypeTag → TypeTag → MessageTable → MessageTable
unfolding add_any
add_request req resp error t = add_any req (some (resp, error)) t

unfoldable pub add_message : TypeTag → MessageTable → MessageTable
unfolding add_any
add_message msg t = add_any msg none t

unfoldable pub accept_any : TypeTag → MessageTable → Bool
accept_any msg t = Table.contains_key msg t

abbrev pub any : (Option (TypeTag × TypeTag) → Bool) → List (Option (TypeTag × TypeTag)) → Bool
any p [] = false
any p (x ∷ xs) = p x || any p xs

abbrev pub is_message : Option (TypeTag × TypeTag) → Bool
is_message none = true
is_message (some x) = false

unfoldable pub accept_message : TypeTag → MessageTable → Bool
accept_message msg t = elim (get msg t) [ none ↦ false | some v ↦ any is_message v ]

abbrev pub answers : Option TypeTag → Option TypeTag → Option (TypeTag × TypeTag) → Bool
answers resp error none = false
answers resp error (some (r, e)) = asks resp r && asks error e

unfoldable pub accept_request : TypeTag → Option TypeTag → Option TypeTag → MessageTable → Bool
accept_request msg resp error t = elim (get msg t) [
  | none ↦ false
  | some v ↦ any (answers resp error) v
]

unfoldable pub keys : MessageTable → List TypeTag
keys [] = []
keys ((k, v) ∷ t) = k ∷ keys t

unfoldable pub under : TypeTag → List (Option (TypeTag × TypeTag)) → List AcceptItem
under k [] = []
under k (resp ∷ v) = (k, resp) ∷ under k v

unfoldable pub all_items : MessageTable → List AcceptItem
unfolding under
all_items [] = []
all_items ((k, v) ∷ t) = under k v ++ all_items t

-- The keys and the items, in the order in which the map is run through, which `arrange` gives.
unfoldable pub iter_keys : (MessageTable → MessageTable) → MessageTable → List TypeTag
unfolding keys
iter_keys arrange t = keys (arrange t)

unfoldable pub iter_types : (MessageTable → MessageTable) → MessageTable → List AcceptItem
unfolding under all_items
iter_types arrange t = all_items (arrange t)

-- `From<Vec<…>>`.
unfoldable pub from : List AcceptItem → MessageTable → MessageTable
unfolding add_any
from [] t = t
from ((key, val) ∷ its) t = from its (add_any key val t)
