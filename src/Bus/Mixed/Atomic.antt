-- ===== src/Bus/Mixed/Atomic.antt =====
-- `try_send` on a bus with relays (src/lib.rs): all receivers get the message, or none.
use mathlib.Core.Path.{fun_ext}
use messagebus.Base.{
  ℕ, ◌≡◌, refl, sym, ap, ◌∙◌, ◌⊎◌, inl, inr, Bool, true, false, none, some, List, [], ◌∷◌, ◌==◌,
  ℕ-eq, String-eq, Bool-cases, beq_self,
}
use messagebus.Message.{TypeTag, Message, Result, ok, err, returns, downcast}
use messagebus.Errors.{Error, GenericError, send_full}
use messagebus.Lookup.{Receiver, LookupQuery-eq, SendOptions, has_id}
use messagebus.Table.{get}
use messagebus.Slab.{Slab}
use messagebus.Relay.{Relay, TagTable, ensure, update_tag}
use messagebus.Relay
use messagebus.Place.{Crates, SendResult, send}
use messagebus.Bus.Atomic
use messagebus.Bus.Mixed.{
  Remote, carried, Target, typed, relayed, Targets, MixedBus, at, reserve_all, recast, send_target,
  send_all, counted, send_reserved, try_send_ext,
}
use messagebus.Bus.Mixed.Places.{taken, asked}
use messagebus.Bus.Mixed.Reserve.{AllFit, all_room, asked_of, changed, either, reserve_lem}

-- A send that fails hands back the message itself, or none.
abbrev pub IsReturned :
    {S : Type 0} → Message → Result (Unit {0}) (Error S Message GenericError) → Type 0
IsReturned msg (ok u) = Unit
IsReturned msg (err e) = (carried e ≡ none) ⊎ (carried e ≡ some msg)

module _ (crates : Crates) (slab : Slab ℕ) (remote : Remote crates.S) where
  abbrev pub HandsBack : Type 0
  HandsBack =
      (mid : ℕ) (msg : Message) (req : Bool) (inner : remote.Inner)
      → IsReturned msg (remote.send_msg mid msg req inner).1

  -- What a receiver is after a message was offered to it: a typed receiver has offered it to its channel,
  -- a relay to its remote. Both are marked for a flush, and no counter changes.
  abbrev pub delivered : ℕ → Message → Target crates slab remote → Target crates slab remote
  delivered mid msg (typed p) = typed (Atomic.delivered crates mid msg p)
  delivered mid msg (relayed r inner) =
      relayed (record r { need_flush = true }) (remote.send_msg mid msg false inner).0

  abbrev answer : ℕ → Message → Target crates slab remote → SendResult crates (Unit {0})
  answer mid msg (typed p) = (send crates mid msg false p).1
  answer mid msg (relayed r inner) = (remote.send_msg mid msg false inner).1

  recast_lem :
      (msg : Message) (res : SendResult crates (Unit {0})) (x : Target crates slab remote)
      → IsReturned msg res
      → recast crates slab remote msg.type_id res x ≡ returns (x, res)
  unfolding recast downcast
  recast_lem msg (ok u) x h = refl
  recast_lem msg (err e) x (inl h) = rw (h, recast)
  recast_lem msg (err e) x (inr h) = rw (h, recast) (rw (beq_self msg.type_id) refl)

  send_target_lem :
      (mid : ℕ) (msg : Message) (x : Target crates slab remote)
      → HandsBack
      → send_target crates slab remote mid msg false x
        ≡ returns (delivered mid msg x, answer mid msg x)
  unfolding send_target Relay.set_need_flush
  send_target_lem mid msg (typed p) h =
      ap (λ q. returns (typed q, (send crates mid msg false p).1))
        (Atomic.send-delivered crates mid msg p)
  send_target_lem mid msg (relayed r inner) h =
      recast_lem msg (remote.send_msg mid msg false inner).1 _ (h mid msg false inner)

  one_delivered :
      (mid : ℕ) (msg : Message) (r : Receiver) (rs : List Receiver)
      → (ts : Targets crates slab remote) → has_id r.id rs ≡ false
      → changed crates slab remote
          (delivered mid msg)
          (λ i. has_id i rs)
          (at crates slab remote r.id (delivered mid msg (ts r.id)) ts)
        ≡ changed crates slab remote (delivered mid msg) (λ i. has_id i (r ∷ rs)) ts
  unfolding has_id
  one_delivered mid msg r rs ts n = fun_ext λ i. elim (Bool-cases (r.id == i)) [
    | inl same ↦
        let e : r.id ≡ i = (ℕ-eq.beq_iff r.id i).0 same in
        let new : has_id i rs ≡ false = ap (λ j. has_id j rs) (sym e) ∙ n in
        rw (same, new) (ap (λ j. delivered mid msg (ts j)) e)
    | inr other ↦ rw other refl
  ]

  send_all_lem :
      (mid : ℕ) (msg : Message) (rs : List Receiver) (ts : Targets crates slab remote)
      → HandsBack
      → Atomic.Distinct crates rs
      → send_all crates slab remote mid msg rs ts
        ≡ returns (changed crates slab remote (delivered mid msg) (λ i. has_id i rs) ts)
  unfolding send_all has_id
  send_all_lem mid msg [] ts h d = refl
  send_all_lem mid msg (r ∷ rs) ts h d =
      rw (send_target_lem mid msg (ts r.id) h, send_all)
        (send_all_lem mid msg rs (at crates slab remote r.id (delivered mid msg (ts r.id)) ts) h d.1
          ∙ ap returns (one_delivered mid msg r rs ts d.0))

  delivered-taken :
      (mid : ℕ) (msg : Message) (t : TypeTag) (rs : List Receiver) (ts : Targets crates slab remote)
      → changed crates slab remote
          (delivered mid msg)
          (λ i. has_id i rs)
          (changed crates slab remote
            (taken crates slab remote t)
            (either crates slab remote rs [])
            ts)
        ≡ changed crates slab remote
            (λ x. delivered mid msg (taken crates slab remote t x))
            (λ i. has_id i rs)
            ts
  unfolding has_id
  delivered-taken mid msg t rs ts =
      fun_ext
        λ i. elim (Bool-cases (has_id i rs)) [ inl in_rs ↦ rw in_rs refl | inr out ↦ rw out refl ]

  asked_only :
      (t : TypeTag) (rs : List Receiver) (ts : Targets crates slab remote)
      → changed crates slab remote (asked crates slab remote t) (either crates slab remote rs []) ts
        ≡ changed crates slab remote (asked crates slab remote t) (λ i. has_id i rs) ts
  unfolding has_id
  asked_only t rs ts =
      fun_ext
        λ i. elim (Bool-cases (has_id i rs)) [ inl in_rs ↦ rw in_rs refl | inr out ↦ rw out refl ]

  try_send_open :
      (b : MixedBus crates slab remote) (msg : Message) (options : SendOptions)
      → (rs : List Receiver) (res : Targets crates slab remote × Bool) → b.closed ≡ false
      → get (record { tid = msg.type_tag; rid = none; eid = none }) b.lookup ≡ some rs
      → reserve_all crates slab remote msg.type_tag [] rs b.targets ≡ res
      → try_send_ext crates slab remote msg options b
        ≡ send_reserved crates slab remote msg rs b res
  unfolding try_send_ext
  try_send_open b msg options rs res o g e = simp (o, g, e) refl

  -- `try_send` on an open bus with typed receivers and relays, where each typed receiver is within its
  -- limit, each relay has 16 places for the tag, and a relay that refuses a message hands back that
  -- message or none. If all receivers of the tag have a free place, the call returns `Ok`, each of them has
  -- one more place taken and is marked for a flush, and each was offered the message once, under the id
  -- that was next: a typed receiver's channel holds one request more, or is as it was if its receiving end
  -- is closed, and a relay has passed the message to its `send_msg`. No other receiver is touched. If one of
  -- them is full, the call returns `Full` with the message, and no place is taken anywhere: all that stays
  -- is a context for the tag in the relays that were asked. The id is used up in both cases.
  pub try_send_mixed :
      (b : MixedBus crates slab remote) (msg : Message) (options : SendOptions) (rs : List Receiver)
      → HandsBack
      → b.closed ≡ false
      → get (record { tid = msg.type_tag; rid = none; eid = none }) b.lookup ≡ some rs
      → Atomic.Distinct crates rs
      → AllFit crates slab remote msg.type_tag b.targets
      → let t = msg.type_tag in
        ((all_room crates slab remote t rs b.targets ≡ true)
          × (try_send_ext crates slab remote msg options b
              ≡ returns (
                record (counted crates slab remote b) {
                  targets =
                      changed crates slab remote
                        (λ x. delivered b.id_counter msg (taken crates slab remote t x))
                        (λ i. has_id i rs)
                        b.targets;
                },
                ok tt,
              )))
        ⊎ ((all_room crates slab remote t rs b.targets ≡ false)
            × (try_send_ext crates slab remote msg options b
                ≡ returns (
                  record (counted crates slab remote b) {
                    targets =
                        changed crates slab remote
                          (asked crates slab remote t)
                          (λ i. has_id i (asked_of crates slab remote t rs b.targets))
                          b.targets;
                  },
                  err (send_full msg),
                )))
  unfolding has_id
  try_send_mixed b msg options rs h o g d f =
      let t = msg.type_tag in
      elim (reserve_lem crates slab remote t [] rs b.targets f tt d (λ i e. absurd (cc))
        (λ i e. absurd (cc))) [
          | inl (free, done) ↦ inl (
            free,
            try_send_open b msg options rs _ o g done
                ∙ rw
                    (
                      send_all_lem b.id_counter msg rs
                          (changed crates slab remote (taken crates slab remote t)
                            (either crates slab remote rs []) b.targets)
                          h d,
                      send_reserved,
                    )
                    (rw (delivered-taken b.id_counter msg t rs b.targets) refl),
          )
          | inr (full, done) ↦ inr (
            full,
            try_send_open b msg options rs _ o g done
                ∙ rw (asked_only t (asked_of crates slab remote t rs b.targets) b.targets) refl,
          )
        ]
