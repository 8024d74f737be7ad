-- ===== src/MessageTable/Laws.antt =====
-- What a table of message types accepts (crates/remote/src/relays/mod.rs).
use messagebus.Base.{
  ◌≡◌, refl, ap, ◌∙◌, Bool, false, ◌&&◌, ◌||◌, ◌==◌, Option, List, [], ◌∷◌, ◌++◌, arith, String-eq,
  Option-cases, Bool-cases, inl, inr,
}
use messagebus.Message.{TypeTag}
use messagebus.Table.{get, get-insert}
use messagebus.Wrapper.Accept.{AcceptItem}
use messagebus.MessageTable.{
  MessageTable, add_any, any, is_message, answers, accept_message, accept_request, listed, from,
}

any-append :
    (p : Option (TypeTag × TypeTag) → Bool) (xs ys : List (Option (TypeTag × TypeTag)))
    → any p (xs ++ ys) ≡ (any p xs || any p ys)
any-append p [] ys = refl
any-append p (x ∷ xs) ys = ground (arith, any-append p xs ys)

-- Some entry of the list has the type and passes the test.
abbrev pub lists : (Option (TypeTag × TypeTag) → Bool) → TypeTag → List AcceptItem → Bool
lists p msg [] = false
lists p msg ((key, val) ∷ its) = ((key == msg) && p val) || lists p msg its

module _ (p : Option (TypeTag × TypeTag) → Bool) (msg : TypeTag) where
  abbrev accepted : MessageTable → Bool
  accepted t = any p (listed (get msg t))

  accepted-add_any :
      (key : TypeTag) (val : Option (TypeTag × TypeTag)) (t : MessageTable)
      → accepted (add_any key val t) ≡ (((key == msg) && p val) || accepted t)
  unfolding add_any
  accepted-add_any key val t = elim (Bool-cases (key == msg)) [
    | inl same ↦
        let e = (String-eq.beq_iff key msg).0 same in
        let there = ap (λ k. any p (listed (get k t))) e in
        rw (get-insert key msg (listed (get key t) ++ val ∷ []) t, same)
          (ground (arith, any-append p (listed (get key t)) (val ∷ []), there))
    | inr other ↦ rw (get-insert key msg (listed (get key t) ++ val ∷ []) t, other) refl
  ]

  accepted-from :
      (its : List AcceptItem) (t : MessageTable)
      → accepted (from its t) ≡ (lists p msg its || accepted t)
  unfolding from
  accepted-from [] t = refl
  accepted-from ((key, val) ∷ its) t =
      ground (arith, accepted-from its (add_any key val t), accepted-add_any key val t)

accept_message-accepted :
    (msg : TypeTag) (t : MessageTable) → accept_message msg t ≡ any is_message (listed (get msg t))
unfolding accept_message
accept_message-accepted msg t = elim (Option-cases (get msg t)) [
  | inl e ↦ rw (e, accept_message) refl
  | inr (v, e) ↦ rw (e, accept_message) refl
]

accept_request-accepted :
    (msg : TypeTag) (resp error : Option TypeTag) (t : MessageTable)
    → accept_request msg resp error t ≡ any (answers resp error) (listed (get msg t))
unfolding accept_request
accept_request-accepted msg resp error t = elim (Option-cases (get msg t)) [
  | inl e ↦ rw (e, accept_request) refl
  | inr (v, e) ↦ rw (e, accept_request) refl
]

-- A table made from a list accepts exactly what the list names, in whatever order and however often:
-- a plain message if some entry of that type has no answer, and a request if some entry of that type
-- has an answer that agrees with the response and the error type wherever the request names one.
pub accept-from :
    (its : List AcceptItem) (msg : TypeTag) (resp error : Option TypeTag)
    → (accept_message msg (from its []) ≡ lists is_message msg its)
      × (accept_request msg resp error (from its []) ≡ lists (answers resp error) msg its)
unfolding get
accept-from its msg resp error = (
  accept_message-accepted msg (from its []) ∙ accepted-from is_message msg its [] ∙ ground arith,
  accept_request-accepted msg resp error (from its [])
      ∙ accepted-from (answers resp error) msg its []
      ∙ ground arith,
)
