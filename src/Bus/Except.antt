-- ===== src/Bus/Except.antt =====
-- Boxed sends and requests under the option `Except` (src/lib.rs).
use messagebus.Base.{
  ℕ, ◌≡◌, refl, ◌∙◌, sym, Bool, true, false, Option, none, some, List, [], ◌∷◌, subst, arith,
  if◌then◌else◌, first, All, Option-cases, inl, inr, ◌==◌, ℕ-eq, Bool-cases,
}
use messagebus.Message.{Message, try_clone_boxed}
use messagebus.Wrapper.{Waiter, boxed}
use messagebus.Lookup.{Receiver, except, select_receivers, keep, chosen}
use messagebus.Place.{Crates, Place, reserve_place}
use messagebus.Bus.{Bus, Places, Others, at, counted, reserve}
use messagebus.Bus.Boxed.{
  Outcome, waits, panicked, done, and_then, send_place, send_copy, send_copies, first_last,
  sent_boxed, send_boxed, add_waiter, request_at, request_listening, request_first, request_waiting,
  request_boxed,
}

module _ (crates : Crates) (type_of : ℕ → ℕ) (i : ℕ) where
  -- The receiver `i` is none of the list.
  abbrev Misses : List Receiver → Type 0
  Misses rs = All (λ (r : Receiver). (r.id == i) ≡ false) rs

  -- The place of the receiver `i` is `p`.
  abbrev Kept : {R : Type 0} → Place crates → Outcome (R × Places crates) → Type 0
  Kept p waits = Unit
  Kept p panicked = Unit
  Kept p (done (r, ps)) = ps i ≡ p

  -- No other task touches the receiver `i`.
  abbrev pub LeaveAlone : Others crates → Type 0
  LeaveAlone others =
      All (λ (other : Places crates → Places crates). (ps : Places crates) → other ps i ≡ ps i)
        others

  at_ne :
      (j : ℕ) (p : Place crates) (ps : Places crates) → (j == i) ≡ false → at crates j p ps i ≡ ps i
  at_ne j p ps h = rw h refl

  -- What `reserve` at another receiver leaves.
  abbrev Left : Place crates → Option (Others crates × Places crates) → Type 0
  Left p none = Unit
  Left p (some (others, ps)) = LeaveAlone others × (ps i ≡ p)

  reserve-Left :
      (j : ℕ) (others : Others crates) (ps : Places crates)
      → (j == i) ≡ false
      → LeaveAlone others
      → Left (ps i) (reserve crates j others ps)
  unfolding reserve
  reserve-Left j [] ps h alone = elim (Option-cases (reserve_place crates (ps j))) [
    | inl e ↦ rw (e, reserve) tt
    | inr (p, e) ↦ rw (e, reserve) (tt, at_ne j p ps h)
  ]
  reserve-Left j (other ∷ others) ps h alone = elim (Option-cases (reserve_place crates (ps j))) [
    | inl e ↦
        rw (e, reserve)
          (subst (λ p. Left p (reserve crates j others (other ps))) (alone.0 ps)
            (reserve-Left j others (other ps) h alone.1))
    | inr (p, e) ↦ rw (e, reserve) (alone, at_ne j p ps h)
  ]

  keep-Misses : (rs : List Receiver) → Misses (keep (chosen (except i)) rs)
  unfolding keep
  keep-Misses [] = tt
  keep-Misses (r ∷ rs) = elim (Bool-cases (i == r.id)) [
    | inl same ↦ rw same (keep-Misses rs)
    | inr other ↦ rw other (ground arith, keep-Misses rs)
  ]

  abbrev KeptNext : Place crates → Outcome (Others crates × Places crates) → Type 0
  KeptNext p waits = Unit
  KeptNext p panicked = Unit
  KeptNext p (done (others, ps)) = LeaveAlone others × (ps i ≡ p)

  abbrev after_reserve :
      ℕ
      → Message
      → Receiver
      → Option (Others crates × Places crates)
      → Outcome (Others crates × Places crates)
  after_reserve mid msg r none = waits
  after_reserve mid msg r (some (others, ps)) =
      done (others, at crates r.id (send_place crates type_of mid msg false r ps).0 ps)

  after_reserve-KeptNext :
      (mid : ℕ) (msg : Message) (r : Receiver) (p : Place crates)
      (o : Option (Others crates × Places crates))
      → (r.id == i) ≡ false
      → Left p o
      → KeptNext p (after_reserve mid msg r o)
  after_reserve-KeptNext mid msg r p none h l = tt
  after_reserve-KeptNext mid msg r p (some (others, ps)) h l = (l.0, at_ne r.id _ ps h ∙ l.1)

  copy_of_none :
      (mid : ℕ) (msg : Message) (r : Receiver) (others : Others crates) (ps : Places crates)
      → try_clone_boxed msg ≡ none
      → send_copy crates type_of mid msg r others ps ≡ panicked
  unfolding send_copy
  copy_of_none mid msg r others ps e = rw (e, send_copy) refl

  copy_of_some :
      (mid : ℕ) (msg copy : Message) (r : Receiver) (others : Others crates) (ps : Places crates)
      → try_clone_boxed msg ≡ some copy
      → send_copy crates type_of mid msg r others ps
        ≡ after_reserve mid copy r (reserve crates r.id others ps)
  unfolding send_copy
  copy_of_some mid msg copy r others ps e = rw (e, send_copy) refl

  send_copy-KeptNext :
      (mid : ℕ) (msg : Message) (r : Receiver) (others : Others crates) (ps : Places crates)
      → (r.id == i) ≡ false
      → LeaveAlone others
      → KeptNext (ps i) (send_copy crates type_of mid msg r others ps)
  send_copy-KeptNext mid msg r others ps h alone = elim (Option-cases (try_clone_boxed msg)) [
    | inl e ↦ subst (KeptNext (ps i)) (sym (copy_of_none mid msg r others ps e)) tt
    | inr (copy, e) ↦
        subst (KeptNext (ps i)) (sym (copy_of_some mid msg copy r others ps e))
          (after_reserve-KeptNext mid copy r (ps i) _ h (reserve-Left r.id others ps h alone))
  ]

  and_then-KeptNext :
      (p : Place crates) (o : Outcome (Others crates × Places crates))
      (f : Others crates × Places crates → Outcome (Others crates × Places crates))
      → KeptNext p o
      → ((others : Others crates) (ps : Places crates)
          → LeaveAlone others
          → KeptNext (ps i) (f (others, ps)))
      → KeptNext p (and_then o f)
  and_then-KeptNext p waits f k next = tt
  and_then-KeptNext p panicked f k next = tt
  and_then-KeptNext p (done (others, ps)) f k next =
      subst (λ p. KeptNext p (f (others, ps))) k.1 (next others ps k.0)

  send_copies-KeptNext :
      (mid : ℕ) (msg : Message) (rs : List Receiver) (others : Others crates) (ps : Places crates)
      → Misses rs
      → LeaveAlone others
      → KeptNext (ps i) (send_copies crates type_of mid msg rs others ps)
  unfolding send_copies
  send_copies-KeptNext mid msg [] others ps h alone = (alone, refl)
  send_copies-KeptNext mid msg (r ∷ rs) others ps h alone =
      and_then-KeptNext (ps i) _ _ (send_copy-KeptNext mid msg r others ps h.0 alone)
        (λ others' ps' alone'. send_copies-KeptNext mid msg rs others' ps' h.1 alone')

  first_last-KeptNext :
      (mid : ℕ) (msg : Message) (rs : List Receiver) (others : Others crates) (ps : Places crates)
      → Misses rs
      → LeaveAlone others
      → KeptNext (ps i) (first_last crates type_of mid msg rs others ps)
  first_last-KeptNext mid msg [] others ps h alone = (alone, refl)
  first_last-KeptNext mid msg (r ∷ rs) others ps h alone =
      and_then-KeptNext (ps i) _ _ (send_copies-KeptNext mid msg rs others ps h.1 alone)
        (λ others' ps' alone'. send_copy-KeptNext mid msg r others' ps' h.0 alone')

  -- The place of the receiver `i` is `p` on the bus that a call leaves.
  abbrev pub Untouched {ℓ} : {R : Type ℓ} → Place crates → Outcome (Bus crates × R) → Type 0
  Untouched p waits = Unit
  Untouched p panicked = Unit
  Untouched p (done (b, res)) = b.places i ≡ p

  sent_boxed-Untouched :
      (p : Place crates) (b : Bus crates) (o : Outcome (Others crates × Places crates))
      → KeptNext p o
      → Untouched p (sent_boxed crates type_of b o)
  sent_boxed-Untouched p b waits k = tt
  sent_boxed-Untouched p b panicked k = tt
  sent_boxed-Untouched p b (done (others, ps)) k = k.1

  if_Untouched :
      {R : Type 0} (c : Bool) (p : Place crates) (x y : Outcome (Bus crates × R))
      → Untouched p x
      → Untouched p y
      → Untouched p (if c then x else y)
  if_Untouched true p x y h k = h
  if_Untouched false p x y h k = k

  -- A message that is sent boxed to all receivers but `i` leaves the receiver `i` as it was, whether it
  -- is sent, refused or kept waiting, as long as no other task touches that receiver.
  pub send_boxed_except :
      (msg : Message) (others : Others crates) (b : Bus crates)
      → LeaveAlone others
      → Untouched (b.places i) (send_boxed crates type_of msg (except i) others b)
  unfolding send_boxed select_receivers
  send_boxed_except msg others b alone = if_Untouched b.closed (b.places i) _ _ refl (
      sent_boxed-Untouched (b.places i) (counted crates b) _
        (first_last-KeptNext b.id_counter msg _ others b.places (keep-Misses _) alone))

  request_at-Untouched :
      (p : Place crates) (mid : ℕ) (msg : Message) (r : Receiver) (b : Bus crates)
      (o : Option (Others crates × Places crates))
      → (r.id == i) ≡ false
      → Left p o
      → Untouched p (request_at crates type_of mid msg r b o)
  request_at-Untouched p mid msg r b none h l = tt
  request_at-Untouched p mid msg r b (some (others, ps)) h l = at_ne r.id _ ps h ∙ l.1

  -- The places once a waiter stands elsewhere.
  abbrev Waited : Place crates → Option (ℕ × Places crates) → Type 0
  Waited p none = Unit
  Waited p (some (mid, ps)) = ps i ≡ p

  add_waiter-Waited :
      (waiter : Waiter) (r : Receiver) (ps : Places crates)
      → (r.id == i) ≡ false
      → Waited (ps i) (add_waiter crates type_of waiter r ps)
  unfolding add_waiter
  add_waiter-Waited waiter r ps h =
      elim (Option-cases (crates.slab.insert waiter (ps r.id).waiters)) [
        | inl e ↦ rw (e, add_waiter) tt
        | inr ((mid, waiters), e) ↦ rw (e, add_waiter) (at_ne r.id _ ps h)
      ]

  listening-Untouched :
      (msg : Message) (r : Receiver) (others : Others crates) (b : Bus crates)
      (o : Option (ℕ × Places crates))
      → (r.id == i) ≡ false
      → LeaveAlone others
      → Waited (b.places i) o
      → Untouched (b.places i) (request_listening crates type_of msg r others b o)
  listening-Untouched msg r others b none h alone w = refl
  listening-Untouched msg r others b (some (mid, ps)) h alone w =
      request_at-Untouched (b.places i) mid msg r b _ h (
        subst (λ p. Left p (reserve crates r.id others ps)) w (reserve-Left r.id others ps h alone))

  request_first-Untouched :
      (waiter : Waiter) (msg : Message) (others : Others crates) (b : Bus crates)
      (rs : List Receiver)
      → Misses rs
      → LeaveAlone others
      → Untouched (b.places i) (request_first crates type_of waiter msg others b (first rs))
  request_first-Untouched waiter msg others b [] h alone = refl
  request_first-Untouched waiter msg others b (r ∷ rs) h alone =
      listening-Untouched msg r others b _ h.0 alone (add_waiter-Waited waiter r b.places h.0)

  -- The same holds of a request that is sent boxed: the receiver `i` keeps its place, its channel and
  -- its waiters.
  pub request_boxed_except :
      (msg : Message) (ch : ℕ) (others : Others crates) (b : Bus crates)
      → LeaveAlone others
      → Untouched (b.places i) (request_boxed crates type_of msg (except i) ch others b)
  unfolding request_boxed select_receivers request_waiting
  request_boxed_except msg ch others b alone =
      if_Untouched b.closed (b.places i) _ _ refl
        (request_first-Untouched (boxed ch) msg others b _ (keep-Misses _) alone)
