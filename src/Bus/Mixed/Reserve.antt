-- ===== src/Bus/Mixed/Reserve.antt =====
-- `Bus::try_reserve` on a bus with relays (src/lib.rs): all permits, or none that is kept.
use mathlib.Core.Path.{fun_ext}
use messagebus.Base.{
  ℕ, ◌≡◌, refl, sym, ap, ◌∙◌, ◌⊎◌, inl, inr, Bool, true, false, ◌&&◌, ◌||◌, List, [], ◌∷◌, arith,
  ◌==◌, ℕ-eq, String-eq, if◌then◌else◌, Bool-cases, beq_self,
}
use messagebus.Message.{TypeTag}
use messagebus.Lookup.{Receiver, LookupQuery-eq, has_id}
use messagebus.Slab.{Slab}
use messagebus.Place.{Crates}
use messagebus.Bus.Atomic
use messagebus.Bus.Mixed.{
  Remote, Target, Targets, at, reserve_target, drop_target, drop_all, reserve_all,
}
use messagebus.Bus.Mixed.Places.{Fits, room, taken, asked, reserve_room, reserve_full, drop-taken}

module _ (crates : Crates) (slab : Slab ℕ) (remote : Remote crates.S) where
  -- The relays that are asked in `try_reserve`: those up to the first one that is full.
  abbrev pub asked_of : TypeTag → List Receiver → Targets crates slab remote → List Receiver
  asked_of t [] ts = []
  asked_of t (r ∷ rs) ts =
      r ∷ (if room crates slab remote t (ts r.id) then asked_of t rs ts else [])

  abbrev pub all_room : TypeTag → List Receiver → Targets crates slab remote → Bool
  all_room t [] ts = true
  all_room t (r ∷ rs) ts = room crates slab remote t (ts r.id) && all_room t rs ts

  abbrev pub AllFit : TypeTag → Targets crates slab remote → Type 0
  AllFit t ts = (i : ℕ) → Fits crates slab remote t (ts i)

  -- The receivers of a list, each changed by `f`.
  abbrev pub changed :
      (Target crates slab remote → Target crates slab remote)
      → (ℕ → Bool)
      → Targets crates slab remote
      → Targets crates slab remote
  changed f is ts i = if is i then f (ts i) else ts i

  drop_all-at :
      (t : TypeTag) (rs : List Receiver) (ts : Targets crates slab remote)
      → Atomic.Distinct crates rs
      → (i : ℕ)
      → drop_all crates slab remote t rs ts i
        ≡ (if has_id i rs then drop_target crates slab remote t (ts i) else ts i)
  unfolding drop_all has_id
  drop_all-at t [] ts d i = refl
  drop_all-at t (r ∷ rs) ts d i = ground (
    arith,
    drop_all-at t rs (at crates slab remote r.id (drop_target crates slab remote t (ts r.id)) ts)
        d.1 i,
    d.0,
  )

  one_back :
      (t : TypeTag) (r : Receiver) (old : List Receiver) (start : Targets crates slab remote)
      (i : ℕ)
      → AllFit t start
      → has_id r.id old ≡ false
      → (has_id i old ≡ true → room crates slab remote t (start i) ≡ true)
      → let ts = changed (taken crates slab remote t) (λ j. has_id j old) start in
        let us = at crates slab remote r.id (asked crates slab remote t (start r.id)) ts in
        (if has_id i old then drop_target crates slab remote t (us i) else us i)
        ≡ (if (r.id == i) || has_id i old then asked crates slab remote t (start i) else start i)
  one_back t r old start i f n held = elim (Bool-cases (r.id == i)) [
    | inl same ↦
        let e : r.id ≡ i = (ℕ-eq.beq_iff r.id i).0 same in
        let none_old : has_id i old ≡ false = ap (λ j. has_id j old) (sym e) ∙ n in
        rw (same, none_old) (ap (λ j. asked crates slab remote t (start j)) e)
    | inr other ↦ elim (Bool-cases (has_id i old)) [
      | inl is_old ↦
          rw (other, is_old) (drop-taken crates slab remote t (start i) (f i) (held is_old))
      | inr is_new ↦ rw (other, is_new) refl
    ]
  ]

  one_taken :
      (t : TypeTag) (r : Receiver) (old : List Receiver) (start : Targets crates slab remote)
      → at crates slab remote r.id
          (taken crates slab remote t (start r.id))
          (changed (taken crates slab remote t) (λ j. has_id j old) start)
        ≡ changed (taken crates slab remote t) (λ j. has_id j (r ∷ old)) start
  unfolding has_id
  one_taken t r old start = fun_ext λ i. elim (Bool-cases (r.id == i)) [
    | inl same ↦
        let e : r.id ≡ i = (ℕ-eq.beq_iff r.id i).0 same in
        rw same (ap (λ j. taken crates slab remote t (start j)) e)
    | inr other ↦ rw other refl
  ]

  -- The receivers of the list, after those that have been asked before.
  abbrev pub either : List Receiver → List Receiver → ℕ → Bool
  either rs old i = has_id i rs || has_id i old

  either_moved :
      (r : Receiver) (rs old : List Receiver) (i : ℕ)
      → either rs (r ∷ old) i ≡ either (r ∷ rs) old i
  unfolding has_id
  either_moved r rs old i = ground arith

  -- A receiver that is full, after those of `old` have given a place each.
  give_back :
      (t : TypeTag) (r : Receiver) (rs old : List Receiver) (start : Targets crates slab remote)
      → AllFit t start
      → Atomic.Distinct crates old
      → has_id r.id old ≡ false
      → ((i : ℕ) → has_id i old ≡ true → room crates slab remote t (start i) ≡ true)
      → room crates slab remote t (start r.id) ≡ false
      → drop_all crates slab remote t old (
          at crates slab remote r.id
            (asked crates slab remote t (start r.id))
            (changed (taken crates slab remote t) (λ i. has_id i old) start))
        ≡ changed (asked crates slab remote t) (either (asked_of t (r ∷ rs) start) old) start
  unfolding has_id
  give_back t r rs old start f d n held full = fun_ext λ i.
      let ts = changed (taken crates slab remote t) (λ j. has_id j old) start in
      drop_all-at t old (at crates slab remote r.id (asked crates slab remote t (start r.id)) ts) d
        i
      ∙ one_back t r old start i f n (held i)
      ∙ rw full (ground arith)

  -- The reservation of the receivers `rs`, where those of `old` have been asked before.
  abbrev pub Reserved :
      TypeTag
      → List Receiver
      → List Receiver
      → Targets crates slab remote
      → Targets crates slab remote
      → Type 0
  Reserved t old rs start ts =
      ((all_room t rs start ≡ true)
        × (reserve_all crates slab remote t old rs ts
            ≡ (changed (taken crates slab remote t) (either rs old) start, true)))
      ⊎ ((all_room t rs start ≡ false)
          × (reserve_all crates slab remote t old rs ts ≡ (
            changed (asked crates slab remote t) (either (asked_of t rs start) old) start,
            false,
          )))

  unasked :
      (r : Receiver) (rs old : List Receiver)
      → ((i : ℕ) → has_id i old ≡ true → has_id i (r ∷ rs) ≡ false)
      → has_id r.id old ≡ false
  unfolding has_id
  unasked r rs old apart = ground (arith, apart r.id, beq_self r.id)

  reserve_all-cons :
      (t : TypeTag) (old : List Receiver) (r : Receiver) (rs : List Receiver)
      → (ts : Targets crates slab remote) (x : Target crates slab remote) (granted : Bool)
      → reserve_target crates slab remote t (ts r.id) ≡ (x, granted)
      → reserve_all crates slab remote t old (r ∷ rs) ts ≡ (
          if granted
          then reserve_all crates slab remote t (r ∷ old) rs (at crates slab remote r.id x ts)
          else (drop_all crates slab remote t old (at crates slab remote r.id x ts), false))
  unfolding reserve_all
  reserve_all-cons t old r rs ts x granted e = rw e refl

  still_apart :
      (r : Receiver) (rs old : List Receiver) (i : ℕ)
      → has_id r.id rs ≡ false
      → (has_id i old ≡ true → has_id i (r ∷ rs) ≡ false)
      → has_id i (r ∷ old) ≡ true
      → has_id i rs ≡ false
  unfolding has_id
  still_apart r rs old i new apart h = elim (Bool-cases (r.id == i)) [
    | inl same ↦ ap (λ j. has_id j rs) (sym ((ℕ-eq.beq_iff r.id i).0 same)) ∙ new
    | inr other ↦ ground (arith, apart)
  ]

  still_held :
      (t : TypeTag) (r : Receiver) (old : List Receiver) (start : Targets crates slab remote)
      (i : ℕ)
      → room crates slab remote t (start r.id) ≡ true
      → (has_id i old ≡ true → room crates slab remote t (start i) ≡ true)
      → has_id i (r ∷ old) ≡ true
      → room crates slab remote t (start i) ≡ true
  unfolding has_id
  still_held t r old start i free held h = elim (Bool-cases (r.id == i)) [
    | inl same ↦
        ap (λ j. room crates slab remote t (start j)) (sym ((ℕ-eq.beq_iff r.id i).0 same)) ∙ free
    | inr other ↦ held (ground arith)
  ]

  pub reserve_lem :
      (t : TypeTag) (old rs : List Receiver) (start : Targets crates slab remote)
      → AllFit t start
      → Atomic.Distinct crates old
      → Atomic.Distinct crates rs
      → ((i : ℕ) → has_id i old ≡ true → has_id i rs ≡ false)
      → ((i : ℕ) → has_id i old ≡ true → room crates slab remote t (start i) ≡ true)
      → Reserved t old rs start (changed (taken crates slab remote t) (λ i. has_id i old) start)
  unfolding reserve_all has_id
  reserve_lem t old [] start f d dr apart held = inl (refl, refl)
  reserve_lem t old (r ∷ rs) start f d dr apart held =
      let n = unasked r rs old apart in
      let ts : Targets crates slab remote =
        changed (taken crates slab remote t) (λ i. has_id i old) start in
      let new : ts r.id ≡ start r.id = rw n refl in
      elim (Bool-cases (room crates slab remote t (start r.id))) [
        | inr full ↦ inr (
          rw full refl,
          reserve_all-cons t old r rs ts (asked crates slab remote t (start r.id)) false (
                ap (reserve_target crates slab remote t) new
                ∙ reserve_full crates slab remote t (start r.id) (f r.id) full)
              ∙ ap (λ (us : Targets crates slab remote). (us, false))
                  (give_back t r rs old start f d n held full),
        )
        | inl free ↦
            let step =
              reserve_all-cons t old r rs ts (taken crates slab remote t (start r.id)) true (
                ap (reserve_target crates slab remote t) new
                ∙ reserve_room crates slab remote t (start r.id) (f r.id) free)
              ∙ ap (reserve_all crates slab remote t (r ∷ old) rs) (one_taken t r old start) in
            elim (reserve_lem t (r ∷ old) rs start f (n, d) dr.1
              (λ i. still_apart r rs old i dr.0 (apart i))
              (λ i. still_held t r old start i free (held i))) [
                | inl (rest, done) ↦ inl (
                  rw free rest,
                  step
                      ∙ done
                      ∙ ap
                          (λ (us : ℕ → Bool). (changed (taken crates slab remote t) us start, true))
                          (fun_ext λ i. either_moved r rs old i),
                )
                | inr (rest, done) ↦ inr (
                  rw free rest,
                  step
                      ∙ done
                      ∙ ap
                          (λ (us : ℕ → Bool).
                            (changed (asked crates slab remote t) us start, false))
                          (fun_ext λ i. rw free (either_moved r (asked_of t rs start) old i)),
                )
              ]
      ]
