-- ===== src/Builder/Ids.antt =====
-- The ids of the receivers that a program registers (src/builder.rs), over all its modules.
use messagebus.Base.{
  ℕ, ◌+◌, ◌^◌, ◌≤◌, ◌<◌, ◌≡◌, refl, List, [], ◌∷◌, arith, ltb, leb, ◌&&◌, ◌==◌, ℕ-eq, if◌then◌else◌,
  add64, ◌++◌, length, ◌∙◌, ap, sym,
}
use messagebus.Wrapper.Accept.{Types}
use messagebus.Lookup.{Receiver, of_types, set_insert}
use messagebus.Lookup.Distinct.{count, count-set_insert}
use messagebus.Builder.{
  Module, RegisterEntry, new, entry, subscribe, subscribe_all, insert_all, done, RelayTypes,
  register_relay, add_module,
}

-- What a program does to the modules that it holds: it makes one, registers a handler for some
-- messages or a relay in the first, puts the first into the second, or goes on with another.
pub data Op : Type 0 where
  new_module : Op
  handler : List (Types × ℕ) → Op
  relay : RelayTypes → Op
  add : Op
  swap : Op
  rotate : Op

abbrev pub registered :
    (List Receiver → List Receiver) → ℕ × RegisterEntry → Module → List Module → ℕ × List Module
registered arrange (seq, e) m ms = (seq, done arrange e m ∷ ms)

abbrev pub relayed : ℕ × Module → List Module → ℕ × List Module
relayed (seq, m) ms = (seq, m ∷ ms)

-- The counter `RECEVIER_ID_SEQ` and the modules, after an operation.
unfoldable pub perform : (List Receiver → List Receiver) → Op → ℕ × List Module → ℕ × List Module
perform arrange new_module (seq, ms) = (seq, new ∷ ms)
perform arrange (handler subs) (seq, m ∷ ms) =
    registered arrange (subscribe_all subs seq entry) m ms
perform arrange (relay t) (seq, m ∷ ms) = relayed (register_relay t seq m) ms
perform arrange add (seq, m ∷ n ∷ ms) = (seq, add_module arrange m n ∷ ms)
perform arrange swap (seq, m ∷ n ∷ ms) = (seq, n ∷ m ∷ ms)
perform arrange rotate (seq, m ∷ ms) = (seq, ms ++ m ∷ [])
perform arrange _ (seq, ms) = (seq, ms)

unfoldable pub performed :
    (List Receiver → List Receiver) → List Op → ℕ × List Module → ℕ × List Module
performed arrange [] p = p
performed arrange (o ∷ os) p = performed arrange os (perform arrange o p)

-- The ids that an operation gives out.
abbrev pub issued : Op → ℕ
issued (handler subs) = length subs
issued (relay t) = 1
issued _ = 0

abbrev pub all_issued : List Op → ℕ
all_issued [] = 0
all_issued (o ∷ os) = issued o + all_issued os

abbrev pub total : ℕ → List Module → ℕ
total k [] = 0
total k (m ∷ ms) = count k m.receivers + total k ms

-- One for the ids from `lo` on that are below `hi`.
abbrev pub span : ℕ → ℕ → ℕ → ℕ
span lo hi k = if leb lo k && ltb k hi then 1 else 0

pub count-insert_all :
    (more rs : List Receiver)
    → ((k : ℕ) → count k more + count k rs ≤ 1)
    → (k : ℕ) → count k (insert_all more rs) ≡ count k more + count k rs
count-insert_all [] rs h k = omega arith
count-insert_all (r ∷ more) rs h k =
    let free : count r.id rs ≡ 0 = ground (arith, h r.id) in
    count-insert_all more (set_insert r rs) (λ j. omega (arith, count-set_insert j r rs free, h j))
      k
    ∙ omega (arith, count-set_insert k r rs free)

pub span-suc :
    (lo seq k : ℕ) → lo ≤ seq → (if seq == k then 1 else 0) + span lo seq k ≡ span lo (seq + 1) k
span-suc lo seq k h = ground arith

pub span_self : (lo seq : ℕ) → span lo seq seq ≡ 0
span_self lo seq = ground arith

-- A receiver under the next id joins those of the ids before.
pub span-set_insert :
    (lo seq : ℕ) (r : Receiver) (rs : List Receiver)
    → r.id ≡ seq
    → lo ≤ seq
    → ((k : ℕ) → count k rs ≡ span lo seq k)
    → (k : ℕ) → count k (set_insert r rs) ≡ span lo (seq + 1) k
span-set_insert lo seq r rs e le h k =
    count-set_insert k r rs (ap (λ i. count i rs) e ∙ h seq ∙ span_self lo seq)
    ∙ ap (λ i. (if i == k then 1 else 0) + count k rs) e
    ∙ ap (λ c. (if seq == k then 1 else 0) + c) (h k)
    ∙ span-suc lo seq k le

pub subscribe_all_ids :
    (subs : List (Types × ℕ)) (lo seq : ℕ) (e : RegisterEntry)
    → lo ≤ seq
    → seq + length subs < 2 ^ 64
    → ((k : ℕ) → count k e.receivers ≡ span lo seq k)
    → ((subscribe_all subs seq e).0 ≡ seq + length subs)
      × ((k : ℕ) → count k (subscribe_all subs seq e).1.receivers ≡ span lo (seq + length subs) k)
unfolding subscribe_all subscribe of_types
subscribe_all_ids [] lo seq e le small h =
    (omega arith, λ k. h k ∙ ap (λ n. span lo n k) (omega arith))
subscribe_all_ids ((types, queue) ∷ subs) lo seq e le small h =
    let next : add64 seq 1 ≡ seq + 1 = omega arith in
    let more : (k : ℕ)
        → count k (set_insert (of_types seq types) e.receivers) ≡ span lo (add64 seq 1) k =
      λ k.
        span-set_insert lo seq (of_types seq types) e.receivers refl le h k
        ∙ ap (λ n. span lo n k) (sym next) in
    let (end, counted) =
      subscribe_all_ids subs lo (add64 seq 1) _ (omega arith) (omega arith) more in
    (omega (arith, end), λ k. counted k ∙ ap (λ n. span lo n k) (omega arith))

pub total-append : (k : ℕ) (ms ns : List Module) → total k (ms ++ ns) ≡ total k ms + total k ns
total-append k [] ns = omega arith
total-append k (m ∷ ms) ns = omega (arith, total-append k ms ns)
