-- ===== src/MessageTable/Listing.antt =====
-- What a table of message types lists of itself: `iter_types` of crates/remote/src/relays/mod.rs.
use messagebus.Base.{
  refl, ap, true, false, none, some, ℕ, ◌≡◌, ◌∙◌, Bool, ◌==◌, Option, List, [], ◌∷◌, ◌++◌, ◌+◌,
  arith, String-eq, Bool-cases, inl, inr, if◌then◌else◌,
}
use mathlib.Core.Path.{fun_ext}
use messagebus.Message.{TypeTag}
use messagebus.Table.{get, insert}
use messagebus.Wrapper.Accept.{AcceptItem, asks}
use messagebus.MessageTable.Laws.{lists, accept-from}
use messagebus.MessageTable.{
  MessageTable, add_any, listed, from, under, all_items, iter_types, is_message, answers,
  accept_message, accept_request,
}

-- How many items pass a test.
abbrev pub tally : (AcceptItem → Bool) → List AcceptItem → ℕ
tally p [] = 0
tally p (it ∷ its) = (if p it then 1 else 0) + tally p its

-- The order in which the map is run through changes no tally of its items.
abbrev pub IsOrder : (MessageTable → MessageTable) → Type 0
IsOrder arrange =
    (p : AcceptItem → Bool) (t : MessageTable)
    → tally p (all_items (arrange t)) ≡ tally p (all_items t)

module _ (p : AcceptItem → Bool) where
  tally-append : (xs ys : List AcceptItem) → tally p (xs ++ ys) ≡ tally p xs + tally p ys
  tally-append [] ys = ground arith
  tally-append (x ∷ xs) ys = ground (arith, tally-append xs ys)

  tally-under :
      (k : TypeTag) (v : List (Option (TypeTag × TypeTag))) (resp : Option (TypeTag × TypeTag))
      → tally p (under k (v ++ resp ∷ [])) ≡ tally p ((k, resp) ∷ []) + tally p (under k v)
  unfolding under
  tally-under k [] resp = ground arith
  tally-under k (x ∷ v) resp = ground (arith, tally-under k v resp)

  tally-insert :
      (k : TypeTag) (w : List (Option (TypeTag × TypeTag))) (t : MessageTable)
      → tally p (all_items (insert k w t)) + tally p (under k (listed (get k t)))
        ≡ tally p (under k w) + tally p (all_items t)
  unfolding get insert all_items under
  tally-insert k w [] = ground (arith, tally-append (under k w) [])
  tally-insert k w ((j, v) ∷ t) = elim (Bool-cases (j == k)) [
    | inl same ↦
        let e = (String-eq.beq_iff j k).0 same in
        rw (same, e)
          (ground
            (arith, tally-append (under k w) (all_items t), tally-append (under k v) (all_items t)))
    | inr other ↦ rw other (
        ground (
          arith,
          tally-append (under j v) (all_items (insert k w t)),
          tally-append (under j v) (all_items t),
          tally-insert k w t,
        ))
  ]

  tally-add_any :
      (k : TypeTag) (resp : Option (TypeTag × TypeTag)) (t : MessageTable)
      → tally p (all_items (add_any k resp t)) ≡ tally p ((k, resp) ∷ []) + tally p (all_items t)
  unfolding add_any
  tally-add_any k resp t = ground (
    arith,
    tally-insert k (listed (get k t) ++ resp ∷ []) t,
    tally-under k (listed (get k t)) resp,
  )

  tally-from :
      (its : List AcceptItem) (t : MessageTable)
      → tally p (all_items (from its t)) ≡ tally p its + tally p (all_items t)
  unfolding from
  tally-from [] t = ground arith
  tally-from ((key, val) ∷ its) t =
      ground (arith, tally-from its (add_any key val t), tally-add_any key val t)

-- What an entry says of a type: it is a plain message if it has no answer.
abbrev pub tells : Option (TypeTag × TypeTag) → Bool
tells (some x) = false
tells none = true

-- A type that a request names, or leaves open.
abbrev pub fits : Option TypeTag → TypeTag → Bool
fits (some wanted) t = wanted == t
fits none t = true

-- An entry with an answer serves a request whose response fits the first type of the answer, and whose
-- error fits the second.
abbrev pub serves : Option TypeTag → Option TypeTag → Option (TypeTag × TypeTag) → Bool
serves resp error (some (r, e)) = if fits resp r then fits error e else false
serves resp error none = false

is_message-eq-tells : is_message ≡ tells
is_message-eq-tells = fun_ext λ x. elim x [ none ↦ refl | some p ↦ refl ]

answer_fits : (o : Option TypeTag) (t : TypeTag) → asks o t ≡ fits o t
answer_fits none t = refl
answer_fits (some a) t = refl

answers-serves :
    (resp error : Option TypeTag) (x : Option (TypeTag × TypeTag))
    → answers resp error x ≡ serves resp error x
answers-serves resp error none = refl
answers-serves resp error (some (r, e)) = ground (arith, answer_fits resp r, answer_fits error e)

-- A table made from a list holds that list, in whatever order its map is run through: `iter_types`
-- gives each item as often as the list has it, and no other; and the table accepts exactly what the
-- list names: a plain message if some entry of that type has no answer, and a request if some entry of
-- that type has an answer whose first type is the response that the request names, if it names one, and
-- whose second type is the error that it names, if it names one.
pub from_lem :
    (arrange : MessageTable → MessageTable)
    → IsOrder arrange
    → (its : List AcceptItem) (p : AcceptItem → Bool) (msg : TypeTag) (resp error : Option TypeTag)
    → (tally p (iter_types arrange (from its [])) ≡ tally p its)
      × (accept_message msg (from its []) ≡ lists tells msg its)
      × (accept_request msg resp error (from its []) ≡ lists (serves resp error) msg its)
unfolding iter_types all_items
from_lem arrange order its p msg resp error =
    let accepts = accept-from its msg resp error in
    (
      order p (from its []) ∙ tally-from p its [] ∙ ground arith,
      accepts.0 ∙ ap (λ q. lists q msg its) is_message-eq-tells,
      accepts.1 ∙ ap (λ q. lists q msg its) (fun_ext (answers-serves resp error)),
    )
