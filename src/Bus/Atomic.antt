-- ===== src/Bus/Atomic.antt =====
-- `try_send` to several receivers (src/lib.rs): all of them get the message, or none is touched.
use mathlib.Core.Path.{fun_ext}
use messagebus.Base.{
  ℕ, ◌+◌, ◌≡◌, refl, sym, ap, ◌∙◌, ◌⊎◌, inl, inr, Bool, true, false, ◌&&◌, none, some, List, [],
  ◌∷◌, arith, ◌==◌, ℕ-eq, if◌then◌else◌, ltb, Bool-cases, Option-cases, beq_self,
}
use messagebus.Message.{Message, ok, err}
use messagebus.Errors.{send_full, send_closed}
use messagebus.Event.{Request, request}
use messagebus.Context.{permit_drop, drop, set_need_flush}
use messagebus.Context.Bounds.{IsBounded, try_reserve_lem}
use messagebus.Lookup.{Receiver, SendOptions, has_id}
use messagebus.Place.{Crates, Place, reserve_place, drop_permit, send, send_typed}
use messagebus.Bus
use messagebus.Bus.{
  Bus, Places, targets, try_send_ext, send_each, at, counted, drop_all, try_send_to, first_target,
  try_send_one, sent_one,
}

module _ (crates : Crates) where
  -- Every receiver is within a limit that an `i64` holds.
  abbrev pub AllBounded : Places crates → Type 0
  AllBounded ps = (i : ℕ) → IsBounded (ps i).context

  abbrev pub Distinct : List Receiver → Type 0
  Distinct [] = Unit
  Distinct (r ∷ rs) = (has_id r.id rs ≡ false) × Distinct rs

  -- A free place is left.
  abbrev pub room : Place crates → Bool
  room p = ltb p.context.processing p.context.limit

  abbrev pub all_room : List Receiver → Places crates → Bool
  all_room [] ps = true
  all_room (r ∷ rs) ps = room (ps r.id) && all_room rs ps

  -- One more place taken.
  abbrev pub taken : Place crates → Place crates
  taken p = record p { context = record p.context { processing = p.context.processing + 1 } }

  pub reserve_place_lem :
      (p : Place crates)
      → IsBounded p.context
      → ((room p ≡ true) × (reserve_place crates p ≡ some (taken p)) × IsBounded (taken p).context)
        ⊎ ((room p ≡ false) × (reserve_place crates p ≡ none))
  unfolding reserve_place
  reserve_place_lem p b = elim (try_reserve_lem p.context b) [
    | inl (full, e) ↦ inr (ground arith, rw (e, reserve_place))
    | inr (free, e) ↦ inl (ground arith, rw (e, reserve_place), omega arith)
  ]

  pub drop_permit-taken :
      (p : Place crates) → IsBounded p.context → room p ≡ true → drop_permit crates (taken p) ≡ p
  unfolding drop_permit drop permit_drop
  drop_permit-taken p b free = ground arith

  -- A permit that is dropped right after it was given leaves every place as it was.
  at-at :
      (i : ℕ) (p : Place crates) (ps : Places crates)
      → drop_permit crates p ≡ ps i
      → at crates i (drop_permit crates (at crates i p ps i)) (at crates i p ps) ≡ ps
  at-at i p ps e = fun_ext λ j. ground (arith, beq_self i)

  at-AllBounded :
      (i : ℕ) (p : Place crates) (ps : Places crates)
      → IsBounded p.context
      → AllBounded ps
      → AllBounded (at crates i p ps)
  at-AllBounded i p ps h b j = elim (Bool-cases (i == j)) [
    | inl same ↦ rw same h
    | inr other ↦ rw other (b j)
  ]

  all_room-at :
      (i : ℕ) (p : Place crates) (rs : List Receiver) (ps : Places crates)
      → has_id i rs ≡ false
      → all_room rs (at crates i p ps) ≡ all_room rs ps
  unfolding has_id
  all_room-at i p [] ps h = refl
  all_room-at i p (r ∷ rs) ps h = ground (arith, all_room-at i p rs ps)

  -- The places once each receiver of the list has one more taken.
  abbrev all_taken : List Receiver → Places crates → Places crates
  all_taken rs ps i = if has_id i rs then taken (ps i) else ps i

  all_taken-cons :
      (r : Receiver) (rs : List Receiver) (ps : Places crates)
      → has_id r.id rs ≡ false
      → all_taken rs (at crates r.id (taken (ps r.id)) ps) ≡ all_taken (r ∷ rs) ps
  unfolding has_id
  all_taken-cons r rs ps h = fun_ext λ i. ground (arith, beq_self i)

  -- The whole reservation: it succeeds exactly if every receiver has a free place, takes one place
  -- of each then, and otherwise gives back all that it took. `start` is what was there before the
  -- permits of `old` were taken.
  try_reserve_all :
      (old rs : List Receiver) (start ps : Places crates)
      → AllBounded ps
      → Distinct rs
      → drop_all crates old ps ≡ start
      → ((all_room rs ps ≡ true) × (Bus.try_reserve crates old rs ps ≡ (all_taken rs ps, true)))
        ⊎ ((all_room rs ps ≡ false) × (Bus.try_reserve crates old rs ps ≡ (start, false)))
  unfolding Bus.try_reserve has_id
  try_reserve_all old [] start ps b d e = inl (refl, refl)
  try_reserve_all old (r ∷ rs) start ps b d e = elim (reserve_place_lem (ps r.id) (b r.id)) [
    | inr (full, refused) ↦ inr (rw full, rw (refused, Bus.try_reserve) (rw e))
    | inl (free, given, fits) ↦
        let p = taken (ps r.id) in
        let ps' = at crates r.id p ps in
        let undone : drop_all crates (r ∷ old) ps' ≡ start =
          ap (drop_all crates old) (at-at r.id p ps (drop_permit-taken (ps r.id) (b r.id) free))
          ∙ e in
        let same = all_room-at r.id p rs ps d.0 in
        elim (try_reserve_all (r ∷ old) rs start ps' (at-AllBounded r.id p ps fits b) d.1 undone) [
          | inl (rest, done) ↦ inl (
            rw free (sym same ∙ rest),
            rw (given, Bus.try_reserve)
                (done ∙ ap (λ (qs : Places crates). (qs, true)) (all_taken-cons r rs ps d.0)),
          )
          | inr (rest, done) ↦ inr (rw free (sym same ∙ rest), rw (given, Bus.try_reserve) done)
        ]
  ]

  -- A channel after one request was offered to it: a closed channel stays as it is.
  abbrev pub offered : Request Message → crates.Chan → crates.Chan
  offered q chan = elim (crates.push q chan) [ none ↦ chan | some chan' ↦ chan' ]

  -- A receiver that a message was offered to: one request more in its channel, and a flush to come. Its
  -- counter and its waiters stay.
  abbrev pub delivered : ℕ → Message → Place crates → Place crates
  delivered mid msg p = record p {
    chan = offered (request mid msg false) p.chan;
    context = record p.context { need_flush = true };
  }

  -- `Receiver::send` offers the message once, and the place that was taken for it stays taken.
  pub send-delivered :
      (mid : ℕ) (msg : Message) (p : Place crates)
      → (send crates mid msg false p).0 ≡ delivered mid msg p
  unfolding send send_typed drop set_need_flush
  send-delivered mid msg p = elim (Option-cases (crates.push (request mid msg false) p.chan)) [
    | inl e ↦ rw (e, send_typed) (rw (e, offered) refl)
    | inr (chan, e) ↦ rw (e, send_typed) (rw (e, offered) refl)
  ]

  one_delivered :
      (mid : ℕ) (msg : Message) (r : Receiver) (rs : List Receiver) (ps : Places crates) (i : ℕ)
      → has_id r.id rs ≡ false
      → let qs = at crates r.id (delivered mid msg (ps r.id)) ps in
        (if has_id i rs then delivered mid msg (qs i) else qs i)
        ≡ (if has_id i (r ∷ rs) then delivered mid msg (ps i) else ps i)
  unfolding has_id
  one_delivered mid msg r rs ps i n = elim (Bool-cases (r.id == i)) [
    | inl same ↦
        let e : r.id ≡ i = (ℕ-eq.beq_iff r.id i).0 same in
        let new : has_id i rs ≡ false = ap (λ j. has_id j rs) (sym e) ∙ n in
        rw (same, new) (ap (λ j. delivered mid msg (ps j)) e)
    | inr other ↦ rw other refl
  ]

  send_each-at :
      (mid : ℕ) (msg : Message) (rs : List Receiver) (ps : Places crates)
      → Distinct rs
      → (i : ℕ)
      → send_each crates mid msg rs ps i ≡ (if has_id i rs then delivered mid msg (ps i) else ps i)
  unfolding send_each has_id
  send_each-at mid msg [] ps d i = refl
  send_each-at mid msg (r ∷ rs) ps d i =
      ap (λ p. send_each crates mid msg rs (at crates r.id p ps) i)
        (send-delivered mid msg (ps r.id))
      ∙ send_each-at mid msg rs (at crates r.id (delivered mid msg (ps r.id)) ps) d.1 i
      ∙ one_delivered mid msg r rs ps i d.0

  pub try_send_open :
      (b : Bus crates) (msg : Message) (options : SendOptions) (rs : List Receiver)
      → b.closed ≡ false
      → targets crates msg.type_tag b ≡ some rs
      → try_send_ext crates msg options b
        ≡ try_send_to crates msg b.id_counter rs
            (counted crates b)
            (Bus.try_reserve crates [] rs b.places)
  unfolding try_send_ext
  try_send_open b msg options rs h t = ground arith

  -- On a bus that is open, with receivers within their limits, `try_send` to the receivers of a
  -- type tag does one of two things. If each has a free place, the call returns `Ok`, each of them has one
  -- more place taken and is marked for a flush, and its channel is offered the message once, under the id
  -- that was next: the channel holds one request more, or is as it was if its receiving end is closed. No
  -- other receiver is touched. If one of them is full, the message comes back as `Full`, and all receivers
  -- are as they were. The id is used up in both cases.
  pub try_send_all_or_none :
      (b : Bus crates) (msg : Message) (options : SendOptions) (rs : List Receiver)
      → b.closed ≡ false
      → targets crates msg.type_tag b ≡ some rs
      → Distinct rs
      → AllBounded b.places
      → ((all_room rs b.places ≡ true)
          × ((try_send_ext crates msg options b).1 ≡ ok tt)
          × ((try_send_ext crates msg options b).0.id_counter ≡ (counted crates b).id_counter)
          × ((i : ℕ)
              → (try_send_ext crates msg options b).0.places i ≡ (
                  if has_id i rs
                  then delivered b.id_counter msg (taken (b.places i))
                  else b.places i)))
        ⊎ ((all_room rs b.places ≡ false)
            × (try_send_ext crates msg options b ≡ (counted crates b, err (send_full msg))))
  unfolding drop_all
  try_send_all_or_none b msg options rs h t d w =
      elim (try_reserve_all [] rs b.places b.places w d refl) [
        | inl (free, done) ↦
            rw (result done)
              (inl (free, refl, refl, λ i. send_each-at b.id_counter msg rs _ d i ∙ ground arith))
        | inr (full, done) ↦ inr (full, result done)
      ]
    where
      result :
          {r : Places crates × Bool}
          → Bus.try_reserve crates [] rs b.places ≡ r
          → try_send_ext crates msg options b
            ≡ try_send_to crates msg b.id_counter rs (counted crates b) r
      result e =
          try_send_open b msg options rs h t
          ∙ ap (try_send_to crates msg b.id_counter rs (counted crates b)) e

  try_send_one-room :
      (b : Bus crates) (msg : Message) (r : Receiver)
      → b.closed ≡ false
      → first_target crates msg.type_tag b ≡ some r
      → IsBounded (b.places r.id).context
      → room (b.places r.id) ≡ true
      → try_send_one crates msg b
        ≡ sent_one crates r.id
            (counted crates b)
            (send crates b.id_counter msg false (taken (b.places r.id)))
  unfolding try_send_one
  try_send_one-room b msg r h t w free = ground (arith, reserve_place_lem (b.places r.id) w)

  send_broken :
      (mid : ℕ) (msg : Message) (req : Bool) (p : Place crates)
      → crates.push (request mid msg req) p.chan ≡ none
      → send crates mid msg req p
        ≡ (record p { context = set_need_flush p.context }, err (send_closed msg))
  unfolding send send_typed drop
  send_broken mid msg req p broken = ground arith

  -- A send that the receiver's channel refuses still takes a place for good: `try_send_one` hands
  -- the message back as `Closed`, and leaves the receiver with one more place taken than before.
  pub try_send_one_leaks :
      (b : Bus crates) (msg : Message) (r : Receiver)
      → b.closed ≡ false
      → first_target crates msg.type_tag b ≡ some r
      → IsBounded (b.places r.id).context
      → room (b.places r.id) ≡ true
      → crates.push (request b.id_counter msg false) (b.places r.id).chan ≡ none
      → ((try_send_one crates msg b).1 ≡ err (send_closed msg))
        × (((try_send_one crates msg b).0.places r.id).context.processing
            ≡ (b.places r.id).context.processing + 1)
  unfolding set_need_flush
  try_send_one_leaks b msg r h t w free broken = rw (try_send_one-room b msg r h t w free) (
      rw (send_broken b.id_counter msg false (taken (b.places r.id)) broken)
        (refl, rw (beq_self r.id)))
