-- ===== src/Bus/Mixed/Places.antt =====
-- One receiver of a bus with relays (src/receiver.rs, src/relay.rs): a place taken and given back.
use messagebus.Base.{
  ℕ, ◌+◌, ◌<◌, ◌≡◌, refl, ap, ◌∙◌, inl, inr, Bool, true, false, arith, ℕ-eq, String-eq, ltb, sub64,
}
use messagebus.Message.{TypeTag}
use messagebus.Lookup.{LookupQuery-eq}
use messagebus.Table.{get, insert, insert-insert, insert-get, get-insert_self}
use messagebus.Slab.{Slab}
use messagebus.Relay.{Relay, TagTable, ensure, update_tag}
use messagebus.Relay
use messagebus.Relay.Tags.{places_of, HasLimit, get-ensure, reserve_in_room, reserve_in_full}
use messagebus.Place.{Crates}
use messagebus.Context.Bounds.{IsBounded}
use messagebus.Bus.Atomic
use messagebus.Bus.Mixed.{Remote, Target, typed, relayed, reserve_target, drop_target}

abbrev pub one_more : TypeTag → TagTable → TagTable
one_more t m = insert t (record { limit = 16; processing = places_of (get t m) + 1 }) (ensure t m)

sub64_back : (n : ℕ) → n < 16 → sub64 (n + 1) 1 ≡ n
sub64_back n h = ground arith

-- A place of a tag that is given back leaves the table with the context of the tag.
one_more_back :
    (t : TypeTag) (m : TagTable)
    → HasLimit (get t m)
    → places_of (get t m) < 16
    → update_tag t (λ c. record c { processing = sub64 c.processing 1 }) (one_more t m) ≡ ensure t m
unfolding update_tag
one_more_back t m h room =
    let n = places_of (get t m) in
    rw (get-insert_self t (record { limit = 16; processing = n + 1 }) (ensure t m), update_tag)
      (rw (sub64_back n room) (
        insert-insert t (record { limit = 16; processing = n + 1 })
          (record { limit = 16; processing = n }) (ensure t m)
        ∙ insert-get t (record { limit = 16; processing = n }) (ensure t m) (get-ensure t m h)))

module _ (crates : Crates) (slab : Slab ℕ) (remote : Remote crates.S) where
  -- A typed receiver is within a limit that an `i64` holds; a relay has 16 places for the tag.
  abbrev pub Fits : TypeTag → Target crates slab remote → Type 0
  Fits t (typed p) = IsBounded p.context
  Fits t (relayed r inner) = HasLimit (get t r.receivers)

  -- A free place is left.
  abbrev pub room : TypeTag → Target crates slab remote → Bool
  room t (typed p) = Atomic.room crates p
  room t (relayed r inner) = ltb (places_of (get t r.receivers)) 16

  -- One more place taken.
  abbrev pub taken : TypeTag → Target crates slab remote → Target crates slab remote
  taken t (typed p) = typed (Atomic.taken crates p)
  taken t (relayed r inner) = relayed (record r { receivers = one_more t r.receivers }) inner

  -- No place taken: but a relay that was asked has a context for the tag.
  abbrev pub asked : TypeTag → Target crates slab remote → Target crates slab remote
  asked t (typed p) = typed p
  asked t (relayed r inner) = relayed (record r { receivers = ensure t r.receivers }) inner

  pub reserve_room :
      (t : TypeTag) (x : Target crates slab remote)
      → Fits t x
      → room t x ≡ true
      → reserve_target crates slab remote t x ≡ (taken t x, true)
  unfolding reserve_target Relay.try_reserve
  reserve_room t (typed p) f h = elim (Atomic.reserve_place_lem crates p f) [
    | inl (free, given, fits) ↦ rw (given, reserve_target)
    | inr (full, refused) ↦ absurd (cc)
  ]
  reserve_room t (relayed r inner) f h = rw (reserve_in_room t r.receivers f (ground arith)) refl

  pub reserve_full :
      (t : TypeTag) (x : Target crates slab remote)
      → Fits t x
      → room t x ≡ false
      → reserve_target crates slab remote t x ≡ (asked t x, false)
  unfolding reserve_target Relay.try_reserve
  reserve_full t (typed p) f h = elim (Atomic.reserve_place_lem crates p f) [
    | inl (free, given, fits) ↦ absurd (cc)
    | inr (full, refused) ↦ rw (refused, reserve_target)
  ]
  reserve_full t (relayed r inner) f h = rw (reserve_in_full t r.receivers f (ground arith)) refl

  pub drop-taken :
      (t : TypeTag) (x : Target crates slab remote)
      → Fits t x
      → room t x ≡ true
      → drop_target crates slab remote t (taken t x) ≡ asked t x
  unfolding drop_target Relay.permit_drop
  drop-taken t (typed p) f h = ap typed (Atomic.drop_permit-taken crates p f h)
  drop-taken t (relayed r inner) f h = rw (one_more_back t r.receivers f (ground arith)) refl
