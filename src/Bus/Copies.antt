-- ===== src/Bus/Copies.antt =====
-- `send_boxed` (src/lib.rs) against the send of a typed message, and its panics.
use mathlib.Core.Path.{fun_ext}
use messagebus.Base.{
  ℕ, ◌≡◌, refl, ◌∙◌, ap, sym, Bool, true, false, not, ◌&&◌, Option, none, some, List, [], ◌∷◌, ◌++◌,
  arith, is_empty, All, Option-cases, inl, inr, ℕ-eq, Bool-cases,
}
use messagebus.Message.{Message, err, try_clone_boxed, downcast}
use messagebus.Errors.{send_closed}
use messagebus.Lookup.{Receiver, SendOptions, select_receivers}
use messagebus.Place.{Crates, Place, SendResult, send, send_typed}
use messagebus.Bus.{Bus, Places, Others, at, counted, reserve, send_awaiting}
use messagebus.Bus.Boxed.{
  Outcome, waits, panicked, done, send_downcast, used, send_place, send_copy, send_copies,
  first_last, and_then, sent_boxed, send_boxed,
}

module _ (crates : Crates) (type_of : ℕ → ℕ) where
  -- The receivers of a message that is sent boxed.
  abbrev pub selected : Message → SendOptions → Bus crates → List Receiver
  selected msg options b = select_receivers b.lookup msg.type_tag options none none false

  abbrev pub is_panicked {ℓ} : {A : Type ℓ} → Outcome A → Bool
  is_panicked panicked = true
  is_panicked _ = false

  no_clone : (msg : Message) → msg.cloneable ≡ false → try_clone_boxed msg ≡ none
  unfolding try_clone_boxed
  no_clone msg h = rw h refl

  a_clone : (msg : Message) → msg.cloneable ≡ true → try_clone_boxed msg ≡ some msg
  unfolding try_clone_boxed
  a_clone msg h = ground arith

  send_copy_unclonable :
      (mid : ℕ) (msg : Message) (r : Receiver) (others : Others crates) (ps : Places crates)
      → msg.cloneable ≡ false
      → send_copy crates type_of mid msg r others ps ≡ panicked
  unfolding send_copy
  send_copy_unclonable mid msg r others ps h = rw (no_clone msg h, send_copy) refl

  -- A receiver that takes the type of the message.
  abbrev pub TakesType : Message → Receiver → Type 0
  TakesType msg r = type_of r.id ≡ msg.type_id

  downcast_lem : (msg : Message) (t : ℕ) → t ≡ msg.type_id → downcast t msg ≡ some msg
  unfolding downcast
  downcast_lem msg t h = ground arith

  send_downcast_lem :
      (t mid : ℕ) (msg : Message) (req : Bool) (p : Place crates)
      → t ≡ msg.type_id
      → send_downcast crates type_of t mid msg req p ≡ send_typed crates mid msg req p
  unfolding send_downcast
  send_downcast_lem t mid msg req p h = rw (downcast_lem msg t h, send_downcast) refl

  send_place_lem :
      (mid : ℕ) (msg : Message) (r : Receiver) (ps : Places crates)
      → TakesType msg r
      → send_place crates type_of mid msg false r ps ≡ send crates mid msg false (ps r.id)
  unfolding send_place send
  send_place_lem mid msg r ps h =
      ap (used crates type_of) (send_downcast_lem (type_of r.id) mid msg false (ps r.id) h)

  abbrev pub outcome_of :
      Option (Others crates × Places crates) → Outcome (Others crates × Places crates)
  outcome_of none = waits
  outcome_of (some r) = done r

  send_copy_waits :
      (mid : ℕ) (msg : Message) (r : Receiver) (others : Others crates) (ps : Places crates)
      → msg.cloneable ≡ true
      → reserve crates r.id others ps ≡ none
      → send_copy crates type_of mid msg r others ps ≡ waits
  unfolding send_copy
  send_copy_waits mid msg r others ps h e = rw (a_clone msg h, send_copy) (rw e refl)

  send_copy_returns :
      (mid : ℕ) (msg : Message) (r : Receiver) (others : Others crates) (ps : Places crates)
      → msg.cloneable ≡ true
      → (others' : Others crates) (ps' : Places crates)
      → reserve crates r.id others ps ≡ some (others', ps')
      → send_copy crates type_of mid msg r others ps
        ≡ done (others', at crates r.id (send_place crates type_of mid msg false r ps').0 ps')
  unfolding send_copy
  send_copy_returns mid msg r others ps h others' ps' e = rw (a_clone msg h, send_copy) (rw e refl)

  -- The copies go out as a typed message does.
  send_copies_lem :
      (mid : ℕ) (msg : Message) (rs : List Receiver) (others : Others crates) (ps : Places crates)
      → msg.cloneable ≡ true
      → All (TakesType msg) rs
      → send_copies crates type_of mid msg rs others ps
        ≡ outcome_of (send_awaiting crates mid msg rs others ps)
  unfolding send_copies send_awaiting
  send_copies_lem mid msg [] others ps h t = refl
  send_copies_lem mid msg (r ∷ rs) others ps h t =
      elim (Option-cases (reserve crates r.id others ps)) [
        | inl e ↦
            rw (send_copy_waits mid msg r others ps h e, send_copies) (rw (e, send_awaiting) refl)
        | inr ((others', ps'), e) ↦
            rw (send_copy_returns mid msg r others ps h others' ps' e, send_copies)
              (rw (e, send_awaiting)
                (ap
                    (λ (x : Place crates × SendResult crates (Unit {0})).
                      send_copies crates type_of mid msg rs others' (at crates r.id x.0 ps'))
                    (send_place_lem mid msg r ps' t.0)
                  ∙ send_copies_lem mid msg rs others' _ h t.1))
      ]

  send_copy_runs :
      (mid : ℕ) (msg : Message) (r : Receiver) (others : Others crates) (ps : Places crates)
      → msg.cloneable ≡ true
      → is_panicked (send_copy crates type_of mid msg r others ps) ≡ false
  send_copy_runs mid msg r others ps h = elim (Option-cases (reserve crates r.id others ps)) [
    | inl e ↦ ap is_panicked (send_copy_waits mid msg r others ps h e)
    | inr ((others', ps'), e) ↦
        ap is_panicked (send_copy_returns mid msg r others ps h others' ps' e)
  ]

  send_copies_run :
      (mid : ℕ) (msg : Message) (rs : List Receiver) (others : Others crates) (ps : Places crates)
      → msg.cloneable ≡ true
      → is_panicked (send_copies crates type_of mid msg rs others ps) ≡ false
  unfolding send_copies
  send_copies_run mid msg [] others ps h = refl
  send_copies_run mid msg (r ∷ rs) others ps h =
      elim (Option-cases (reserve crates r.id others ps)) [
        | inl e ↦ rw (send_copy_waits mid msg r others ps h e, send_copies) refl
        | inr ((others', ps'), e) ↦
            rw (send_copy_returns mid msg r others ps h others' ps' e, send_copies)
              (send_copies_run mid msg rs others' _ h)
      ]

  send_copies_unclonable :
      (mid : ℕ) (msg : Message) (r : Receiver) (rs : List Receiver) (others : Others crates)
      (ps : Places crates)
      → msg.cloneable ≡ false
      → send_copies crates type_of mid msg (r ∷ rs) others ps ≡ panicked
  unfolding send_copies
  send_copies_unclonable mid msg r rs others ps h =
      rw (send_copy_unclonable mid msg r others ps h, send_copies) refl

  -- The first receiver goes last.
  abbrev pub rotated : List Receiver → List Receiver
  rotated [] = []
  rotated (r ∷ rs) = rs ++ r ∷ []

  and_then-done {ℓ} : {A : Type ℓ} (o : Outcome A) → and_then o (λ x. done x) ≡ o
  and_then-done waits = refl
  and_then-done panicked = refl
  and_then-done (done x) = refl

  and_then_assoc {ℓ κ μ} :
      {A : Type ℓ} {B : Type κ} {C : Type μ} (o : Outcome A) (f : A → Outcome B) (g : B → Outcome C)
      → and_then (and_then o f) g ≡ and_then o (λ x. and_then (f x) g)
  and_then_assoc waits f g = refl
  and_then_assoc panicked f g = refl
  and_then_assoc (done x) f g = refl

  send_copies-append :
      (mid : ℕ) (msg : Message) (rs : List Receiver) (r : Receiver) (others : Others crates)
      (ps : Places crates)
      → send_copies crates type_of mid msg (rs ++ r ∷ []) others ps
        ≡ and_then
            (send_copies crates type_of mid msg rs others ps)
            (λ next. send_copy crates type_of mid msg r next.0 next.1)
  unfolding send_copies
  send_copies-append mid msg [] r others ps =
      and_then-done (send_copy crates type_of mid msg r others ps)
  send_copies-append mid msg (q ∷ rs) r others ps =
      ap (and_then (send_copy crates type_of mid msg q others ps))
        (fun_ext λ next. send_copies-append mid msg rs r next.0 next.1)
      ∙ sym (and_then_assoc (send_copy crates type_of mid msg q others ps) _ _)

  first_last_lem :
      (mid : ℕ) (msg : Message) (rs : List Receiver) (others : Others crates) (ps : Places crates)
      → first_last crates type_of mid msg rs others ps
        ≡ send_copies crates type_of mid msg (rotated rs) others ps
  unfolding send_copies
  first_last_lem mid msg [] others ps = refl
  first_last_lem mid msg (r ∷ rs) others ps = sym (send_copies-append mid msg rs r others ps)

  sent_boxed_panicked :
      (b : Bus crates) (o : Outcome (Others crates × Places crates))
      → is_panicked (sent_boxed crates type_of b o) ≡ is_panicked o
  sent_boxed_panicked b waits = refl
  sent_boxed_panicked b panicked = refl
  sent_boxed_panicked b (done (others, ps)) = refl

  send_boxed_open :
      (msg : Message) (options : SendOptions) (others : Others crates) (b : Bus crates)
      → b.closed ≡ false
      → send_boxed crates type_of msg options others b
        ≡ sent_boxed crates type_of (counted crates b) (
            send_copies crates type_of b.id_counter msg
              (rotated (selected msg options b))
              others
              b.places)
  unfolding send_boxed
  send_boxed_open msg options others b h =
      ground (arith, first_last_lem b.id_counter msg (selected msg options b) others b.places)

  send_boxed_closed :
      (msg : Message) (options : SendOptions) (others : Others crates) (b : Bus crates)
      → b.closed ≡ true
      → send_boxed crates type_of msg options others b ≡ done (b, err (send_closed msg))
  unfolding send_boxed
  send_boxed_closed msg options others b h = ground arith

  is_empty-rotated : (rs : List Receiver) → is_empty (rotated rs) ≡ is_empty rs
  is_empty-rotated [] = refl
  is_empty-rotated (r ∷ []) = refl
  is_empty-rotated (r ∷ q ∷ rs) = refl

  send_copies_panicked :
      (mid : ℕ) (msg : Message) (rs : List Receiver) (others : Others crates) (ps : Places crates)
      → is_panicked (send_copies crates type_of mid msg rs others ps)
        ≡ (not msg.cloneable && not (is_empty rs))
  unfolding send_copies
  send_copies_panicked mid msg [] others ps = ground arith
  send_copies_panicked mid msg (r ∷ rs) others ps = elim (Bool-cases msg.cloneable) [
    | inl clones ↦ send_copies_run mid msg (r ∷ rs) others ps clones ∙ ground arith
    | inr unclonable ↦
        ap is_panicked (send_copies_unclonable mid msg r rs others ps unclonable) ∙ ground arith
  ]

  -- `send_boxed` panics in one case, and there always: the bus is open, some receiver is chosen, and the
  -- message cannot be cloned. One receiver is enough, although it could take the message itself.
  pub send_boxed_panics :
      (msg : Message) (options : SendOptions) (others : Others crates) (b : Bus crates)
      → is_panicked (send_boxed crates type_of msg options others b)
        ≡ (not b.closed && (not msg.cloneable && not (is_empty (selected msg options b))))
  send_boxed_panics msg options others b = elim (Bool-cases b.closed) [
    | inl closed ↦ ap is_panicked (send_boxed_closed msg options others b closed) ∙ ground arith
    | inr is_open ↦
        let rs = selected msg options b in
        ap is_panicked (send_boxed_open msg options others b is_open)
        ∙ sent_boxed_panicked (counted crates b) _
        ∙ send_copies_panicked b.id_counter msg (rotated rs) others b.places
        ∙ ground (arith, is_empty-rotated rs)
  ]

  -- A message that can be cloned, sent boxed on an open bus to receivers that take its type: it is sent
  -- as `send_ext` sends a typed message, a place awaited before each send, to the chosen receivers in
  -- their order, except that the first one comes last. In particular it does not panic.
  pub send_boxed_lem :
      (msg : Message) (options : SendOptions) (others : Others crates) (b : Bus crates)
      → b.closed ≡ false
      → msg.cloneable ≡ true
      → All (TakesType msg) (rotated (selected msg options b))
      → send_boxed crates type_of msg options others b
        ≡ sent_boxed crates type_of (counted crates b) (
            outcome_of (
              send_awaiting crates b.id_counter msg
                (rotated (selected msg options b))
                others
                b.places))
  send_boxed_lem msg options others b h c t =
      send_boxed_open msg options others b h
      ∙ ap (sent_boxed crates type_of (counted crates b))
          (send_copies_lem b.id_counter msg (rotated (selected msg options b)) others b.places c t)
