-- ===== src/Bus/Leaks.antt =====
-- Waiters that are left behind (src/lib.rs).
use messagebus.Base.{ℕ, ◌≡◌, refl, true, false, none, some, first, arith, ℕ-eq, beq_self}
use messagebus.Message.{TypeTag, Message, err}
use messagebus.Errors.{Error, GenericError}
use messagebus.Wrapper.{Waiter, boxed}
use messagebus.Lookup.{Receiver, SendOptions, select_receivers}
use messagebus.Place.{Crates}
use messagebus.Bus.{Bus, Places, Others, at}
use messagebus.Bus.Boxed.{done, add_waiter, request_deserialize}

module _ (crates : Crates) (type_of : ℕ → ℕ) where
  add_waiter_lem :
      (waiter : Waiter) (r : Receiver) (ps : Places crates) (mid : ℕ) (waiters : crates.slab.Store)
      → crates.slab.insert waiter (ps r.id).waiters ≡ some (mid, waiters)
      → add_waiter crates type_of waiter r ps
        ≡ some (mid, at crates r.id (record (ps r.id) { waiters = waiters }) ps)
  unfolding add_waiter
  add_waiter_lem waiter r ps mid waiters e = rw (e, add_waiter) refl

  request_deserialize_err :
      (tag : TypeTag) (e : Error crates.S Message GenericError) (options : SendOptions) (ch : ℕ)
      (others : Others crates) (b : Bus crates) (r : Receiver) (mid : ℕ) (ps : Places crates)
      → b.closed ≡ false
      → first (select_receivers b.lookup tag options none none true) ≡ some r
      → add_waiter crates type_of (boxed ch) r b.places ≡ some (mid, ps)
      → request_deserialize crates type_of tag (err e) options ch others b
        ≡ done (record b { places = ps }, err e)
  unfolding request_deserialize
  request_deserialize_err tag e options ch others b r mid ps h t w = ground arith

  -- A request whose message cannot be read is given up with the error of the reading, but only after a
  -- waiter was added for its answer, and that waiter stays: its entry of the slab is never given back.
  pub request_deserialize_leaks :
      (tag : TypeTag) (e : Error crates.S Message GenericError) (options : SendOptions) (ch : ℕ)
      (others : Others crates) (b : Bus crates) (r : Receiver) (mid : ℕ)
      (waiters : crates.slab.Store)
      → b.closed ≡ false
      → first (select_receivers b.lookup tag options none none true) ≡ some r
      → crates.slab.insert (boxed ch) (b.places r.id).waiters ≡ some (mid, waiters)
      → (b' : Bus crates) × (request_deserialize crates type_of tag (err e) options ch others b
          ≡ done (b', err e))
        × ((crates.slab.take mid (b'.places r.id).waiters).0 ≡ some (boxed ch))
  request_deserialize_leaks tag e options ch others b r mid waiters h t w = (
    record b { places = at crates r.id (record (b.places r.id) { waiters = waiters }) b.places },
    request_deserialize_err tag e options ch others b r mid _ h t
        (add_waiter_lem (boxed ch) r b.places mid waiters w),
    rw (beq_self r.id) (crates.slab.take-insert (boxed ch) (b.places r.id).waiters w),
  )
