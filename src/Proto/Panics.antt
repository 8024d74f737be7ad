-- ===== src/Proto/Panics.antt =====
-- Which packets of a peer bring down the task that reads them (crates/remote/src/proto.rs).
use messagebus.Base.{
  ℕ, ◌≡◌, ◌≢◌, ap, refl, sym, ◌∙◌, ◌↔◌, ◌⊎◌, inl, inr, Bool, true, false, ◌&&◌, none, some,
  Option-cases, if◌then◌else◌,
}
use messagebus.Message.{TypeTag, Result, ok, err, Call, returns, panics}
use messagebus.Proto.Registry.{BodyType, cbor, json, Wire, TypeRegistry}
use messagebus.Proto.Packet.{
  ProtoError, Packet, Item, Header, ActionKind, error_kind, send_kind, response_kind,
  synchronized_kind,
}
use messagebus.Proto.Decode.{
  deserialize, body_of, item_of, generic_deserialize, load, Parts, tag_of, respond_with,
}

returns≢panics : {A : Type 0} {a : A} → returns a ≢ panics
returns≢panics e = cc

Result-cases : {A X : Type 0} (r : Result A X) → ((a : A) × (r ≡ ok a)) ⊎ ((x : X) × (r ≡ err x))
Result-cases (ok a) = inl (a, refl)
Result-cases (err x) = inr (x, refl)

module _ (wire : Wire) where
  abbrev Returns : {A : Type 0} → Call A → Type 0
  Returns {A} c = (a : A) × (c ≡ returns a)

  if-Returns :
      {A : Type 0} (c : Bool) {x y : Call A} → Returns x → Returns y → Returns (if c then x else y)
  if-Returns true h k = h
  if-Returns false h k = k

  respond_with-Returns : (mid : ℕ) (parts : Parts wire) → Returns (respond_with wire mid parts)
  respond_with-Returns mid (body, some e) = (_, refl)
  respond_with-Returns mid (some msg, none) = (_, refl)
  respond_with-Returns mid (none, none) = (_, refl)

  generic_deserialize-Returns :
      (k : BodyType) (p : Parts wire) → Returns (generic_deserialize wire k (returns p))
  unfolding generic_deserialize
  generic_deserialize-Returns cbor p = (_, refl)
  generic_deserialize-Returns json p = (_, refl)
  generic_deserialize-Returns _ p = (_, refl)

  item_of-Returns :
      (kind : ActionKind) (h : Header wire) (t : TypeTag) (parts : Parts wire)
      → Returns (item_of wire kind h (some t) parts)
  unfolding item_of
  item_of-Returns response_kind h t parts =
      if-Returns h.flags.argument (respond_with-Returns h.argument parts) (_, refl)
  item_of-Returns synchronized_kind h t (body, some e) = (_, refl)
  item_of-Returns synchronized_kind h t (body, none) = (_, refl)
  item_of-Returns error_kind h t (body, some e) = (_, refl)
  item_of-Returns error_kind h t (body, none) = (_, refl)
  item_of-Returns send_kind h t (some msg, e) = (_, refl)
  item_of-Returns send_kind h t (none, e) = (_, refl)
  item_of-Returns _ h t parts = (_, refl)

  body_of-Returns :
      (reg : TypeRegistry wire) (pkt : Packet wire) (t : TypeTag)
      → tag_of wire pkt.header ≡ some t
      → Returns (body_of wire reg pkt)
  unfolding body_of load
  body_of-Returns reg pkt t e = if-Returns pkt.header.flags.error (rw e (_, refl)) (
      if-Returns (pkt.header.flags.type_tag && pkt.header.flags.body)
        (elim (Option-cases pkt.body) [
          | inl e' ↦ rw e' (_, refl)
          | inr (data_, e') ↦ rw (e', e) (generic_deserialize-Returns _ _)
        ])
        (_, refl))

  deserialize_ok :
      (reg : TypeRegistry wire) (pkt : Packet wire) (parts : Parts wire)
      → body_of wire reg pkt ≡ returns (ok parts)
      → deserialize wire reg pkt
        ≡ item_of wire pkt.header.kind pkt.header (tag_of wire pkt.header) parts
  unfolding deserialize
  deserialize_ok reg pkt parts e = rw (e, deserialize) refl

  deserialize_err :
      (reg : TypeRegistry wire) (pkt : Packet wire) (x : ProtoError wire.S)
      → body_of wire reg pkt ≡ returns (err x)
      → deserialize wire reg pkt ≡ returns (err x)
  unfolding deserialize
  deserialize_err reg pkt x e = rw (e, deserialize) refl

  deserialize_panics :
      (reg : TypeRegistry wire) (pkt : Packet wire)
      → body_of wire reg pkt ≡ panics
      → deserialize wire reg pkt ≡ panics
  unfolding deserialize
  deserialize_panics reg pkt e = rw (e, deserialize) refl

  body_of_untagged :
      (reg : TypeRegistry wire) (pkt : Packet wire)
      → pkt.header.flags.error ≡ true
      → tag_of wire pkt.header ≡ none
      → body_of wire reg pkt ≡ panics
  unfolding body_of
  body_of_untagged reg pkt h e = rw e (rw h refl)

  -- On a packet that carries a type tag `deserialize` does not panic: it returns an item or an error,
  -- whatever the packet's kind, its flags, its body and the registry are. What the reader does with the item
  -- is not said.
  pub deserialize_tagged :
      (reg : TypeRegistry wire) (pkt : Packet wire) (t : TypeTag)
      → tag_of wire pkt.header ≡ some t
      → (res : Result (Item wire) (ProtoError wire.S)) × (deserialize wire reg pkt ≡ returns res)
  deserialize_tagged reg pkt t e =
      let (res, done) = body_of-Returns reg pkt t e in
      elim (Result-cases res) [
        | inl (parts, r) ↦
            let (out, made) = item_of-Returns pkt.header.kind pkt.header t parts in
            (
              out,
              deserialize_ok reg pkt parts (done ∙ ap returns r)
                  ∙ ap (λ o. item_of wire pkt.header.kind pkt.header o parts) e
                  ∙ made,
            )
        | inr (x, r) ↦ (err x, deserialize_err reg pkt x (done ∙ ap returns r))
      ]

  -- A packet with the flag `ERROR` panics its reader exactly if it carries no type tag, because the
  -- flag `TYPE_TAG` is not set or the field is empty; a peer can send such a packet.
  pub error_flag_panics_iff :
      (reg : TypeRegistry wire) (pkt : Packet wire)
      → pkt.header.flags.error ≡ true
      → (deserialize wire reg pkt ≡ panics) ↔ (tag_of wire pkt.header ≡ none)
  error_flag_panics_iff reg pkt h = (
    λ broken. elim (Option-cases (tag_of wire pkt.header)) [
      | inl e ↦ e
      | inr (t, e) ↦
          let (res, done) = deserialize_tagged reg pkt t e in
          absurd (returns≢panics (sym done ∙ broken))
    ],
    λ e. deserialize_panics reg pkt (body_of_untagged reg pkt h e),
  )
