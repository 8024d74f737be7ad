-- ===== src/Builder/Sends.antt =====
-- The sends of a bus that `build` made (src/builder.rs with src/lib.rs and src/receiver.rs).
use messagebus.Base.{
  ℕ, ◌^◌, ◌<◌, ◌≤◌, ◌≡◌, refl, sym, ap, subst, ◌∙◌, ◌⊎◌, inl, inr, Bool, true, false, none, some,
  List, [], ◌∷◌, arith, ℕ-eq, if◌then◌else◌, Bool-cases, Option-cases, All,
}
use messagebus.Table.{get}
use messagebus.Message.{TypeTag, Message, ok, err}
use messagebus.Errors.{send_full}
use messagebus.Context.{Context, set_need_flush}
use messagebus.Context.Bounds.{IsBounded}
use messagebus.Lookup.{
  Receiver, SendOptions, LookupTable, LookupQuery, LookupQuery-eq, has_id, or_empty,
}
use messagebus.Lookup.Distinct.{IsOrder, no_count, Unique, new-Unique}
use messagebus.Place.{Crates, Place, SendResult}
use messagebus.Bus.{Bus, Places, targets, try_send_ext, try_send_to, try_reserve, counted}
use messagebus.Bus.Atomic.{
  AllBounded, Distinct, room, all_room, taken, delivered, try_send_all_or_none, try_send_open,
}
use messagebus.Builder.{Module, build}
use messagebus.Builder.Ids.{Op, performed}
use messagebus.Builder.Built.{IsHandled, ModulesBounded, performed-ModulesBounded}

module _ (crates : Crates) where
  Unique-Distinct : (rs : List Receiver) → Unique rs → Distinct crates rs
  Unique-Distinct [] u = tt
  Unique-Distinct (r ∷ rs) u =
      (no_count r.id rs (ground (arith, u r.id)), Unique-Distinct rs (λ k. omega (arith, u k)))

  room_of :
      (rs : List Receiver) (ps : Places crates) (i : ℕ)
      → all_room crates rs ps ≡ true
      → has_id i rs ≡ true
      → room crates (ps i) ≡ true
  unfolding has_id
  room_of [] ps i a h = ground arith
  room_of (r ∷ rs) ps i a h = ground (arith, room_of rs ps i)

  flush-IsBounded :
      (c : Context) → c.limit < 2 ^ 63 → c.processing ≤ c.limit → IsBounded (set_need_flush c)
  unfolding set_need_flush
  flush-IsBounded c s w = record { small = s; within = w }

  delivered-IsBounded :
      (mid : ℕ) (msg : Message) (p : Place crates)
      → IsBounded p.context
      → room crates p ≡ true
      → IsBounded (delivered crates mid msg (taken crates p)).context
  unfolding set_need_flush
  delivered-IsBounded mid msg p b free =
      flush-IsBounded (taken crates p).context b.small (ground arith)

  -- A bus with this table that is open, with all receivers within their limits.
  pub record IsRunning (table : LookupTable) (b : Bus crates) : Type 0 where
    pub same_table : b.lookup ≡ table
    pub is_open : b.closed ≡ false
    pub bounded : AllBounded crates b.places

  try_send_to-lookup :
      (msg : Message) (mid : ℕ) (rs : List Receiver) (b : Bus crates) (r : Places crates × Bool)
      → ((try_send_to crates msg mid rs b r).0.lookup ≡ b.lookup)
        × ((try_send_to crates msg mid rs b r).0.closed ≡ b.closed)
  try_send_to-lookup msg mid rs b (ps, true) = (refl, refl)
  try_send_to-lookup msg mid rs b (ps, false) = (refl, refl)

  try_send_none :
      (b : Bus crates) (msg : Message) (options : SendOptions)
      → b.closed ≡ false
      → targets crates msg.type_tag b ≡ none
      → try_send_ext crates msg options b ≡ (counted crates b, ok tt)
  unfolding try_send_ext
  try_send_none b msg options h t = ground arith

  module _ (arrange : List Receiver → List Receiver) (order : IsOrder arrange) (m : Module) where
    -- The table that `build` makes of the module.
    abbrev pub table : LookupTable
    table = (build arrange m).0

    targets-Distinct :
        (t : TypeTag) (b : Bus crates) (rs : List Receiver)
        → b.lookup ≡ table
        → targets crates t b ≡ some rs
        → Distinct crates rs
    unfolding targets build
    targets-Distinct t b rs e h =
        let j : LookupQuery = record { tid = t; rid = none; eid = none } in
        Unique-Distinct rs (
          subst Unique (ap (λ l. or_empty (get j l)) (sym e) ∙ ap or_empty h)
            (new-Unique arrange order (arrange m.receivers) j))

    sent-IsRunning :
        (msg : Message) (options : SendOptions) (b : Bus crates) (rs : List Receiver)
        → IsRunning table b
        → targets crates msg.type_tag b ≡ some rs
        → AllBounded crates (try_send_ext crates msg options b).0.places
    sent-IsRunning msg options b rs run t =
        elim (try_send_all_or_none crates b msg options rs run.is_open t
          (targets-Distinct msg.type_tag b rs run.same_table t) run.bounded) [
            | inl (free, _, _, places) ↦ λ i. elim (Bool-cases (has_id i rs)) [
              | inl held ↦
                  rw (places i, held)
                    (delivered-IsBounded b.id_counter msg (b.places i) (run.bounded i)
                      (room_of rs b.places i free held))
              | inr other ↦ rw (places i, other) (run.bounded i)
            ]
            | inr (full, e) ↦ rw e run.bounded
          ]

    try_send_ext-IsRunning :
        (msg : Message) (options : SendOptions) (b : Bus crates)
        → IsRunning table b
        → IsRunning table (try_send_ext crates msg options b).0
    try_send_ext-IsRunning msg options b run = elim (Option-cases (targets crates msg.type_tag b)) [
      | inl t ↦
          rw (try_send_none b msg options run.is_open t)
            (record { same_table = run.same_table; is_open = run.is_open; bounded = run.bounded })
      | inr (rs, t) ↦
          let e = try_send_open crates b msg options rs run.is_open t in
          let kept =
            try_send_to-lookup msg b.id_counter rs (counted crates b)
              (try_reserve crates [] rs b.places) in
          record {
            same_table =
                ap (λ (r : Bus crates × SendResult crates (Unit {0})). r.0.lookup) e
                ∙ kept.0
                ∙ run.same_table;
            is_open =
                ap (λ (r : Bus crates × SendResult crates (Unit {0})). r.0.closed) e
                ∙ kept.1
                ∙ run.is_open;
            bounded = sent-IsRunning msg options b rs run t;
          }
    ]

    -- Messages that are sent one after the other.
    abbrev pub try_sends : List Message → Bus crates → Bus crates
    try_sends [] b = b
    try_sends (msg ∷ msgs) b = try_sends msgs (try_send_ext crates msg SendOptions.broadcast b).0

    try_sends-IsRunning :
        (msgs : List Message) (b : Bus crates)
        → IsRunning table b
        → IsRunning table (try_sends msgs b)
    try_sends-IsRunning [] b run = run
    try_sends-IsRunning (msg ∷ msgs) b run =
        try_sends-IsRunning msgs _ (try_send_ext-IsRunning msg SendOptions.broadcast b run)

    -- A bus as `build` leaves it: the table and the contexts are those of the module.
    pub record IsBuilt (b : Bus crates) : Type 0 where
      pub table_of : b.lookup ≡ table
      pub not_closed : b.closed ≡ false
      pub fresh : (i : ℕ) → (b.places i).context ≡ m.contexts i

    -- A program puts a bus together from modules of handlers alone, without a relay, whose queues are below
    -- 2^63, and sends any messages with `try_send`, one after the other. Then no receiver is past its limit,
    -- no two of the receivers of a type tag are the same, and the next `try_send` to them is all or nothing.
    -- Either each has a free place: then the call returns `Ok`, each has one more place taken and is marked
    -- for a flush, and its channel is offered the message once, which a closed channel refuses; no other
    -- receiver is touched. Or one of them is full: then the message comes back as `Full` and every receiver
    -- is as it was.
    pub built_try_send :
        (os : List Op) (seq : ℕ) (ms : List Module)
        → All IsHandled os
        → performed arrange os (1, []) ≡ (seq, m ∷ ms)
        → (b : Bus crates) → IsBuilt b
        → (msgs : List Message) (msg : Message) (options : SendOptions) (rs : List Receiver)
        → targets crates msg.type_tag (try_sends msgs b) ≡ some rs
        → AllBounded crates (try_sends msgs b).places
          × Distinct crates rs
          × (((all_room crates rs (try_sends msgs b).places ≡ true)
                × ((try_send_ext crates msg options (try_sends msgs b)).1 ≡ ok tt)
                × ((i : ℕ)
                    → (try_send_ext crates msg options (try_sends msgs b)).0.places i ≡ (
                        if has_id i rs
                        then delivered crates
                            (try_sends msgs b).id_counter
                            msg
                            (taken crates ((try_sends msgs b).places i))
                        else (try_sends msgs b).places i)))
              ⊎ ((all_room crates rs (try_sends msgs b).places ≡ false)
                  × (try_send_ext crates msg options (try_sends msgs b)
                      ≡ (counted crates (try_sends msgs b), err (send_full msg)))))
    built_try_send os seq ms small e b built msgs msg options rs t =
        let bounds : ModulesBounded (m ∷ ms) =
          subst (λ (p : ℕ × List Module). ModulesBounded p.1) e
            (performed-ModulesBounded arrange os (1, []) small tt) in
        let run : IsRunning table (try_sends msgs b) = try_sends-IsRunning msgs b (record {
          same_table = built.table_of;
          is_open = built.not_closed;
          bounded = λ i. subst IsBounded (sym (built.fresh i)) (bounds.0 i);
        }) in
        let distinct = targets-Distinct msg.type_tag (try_sends msgs b) rs run.same_table t in
        (
          run.bounded,
          distinct,
          elim (try_send_all_or_none crates (try_sends msgs b) msg options rs run.is_open t distinct
              run.bounded) [
                | inl (free, res, _, places) ↦ inl (free, res, places)
                | inr none_touched ↦ inr none_touched
              ],
        )
