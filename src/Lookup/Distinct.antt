-- ===== src/Lookup/Distinct.antt =====
-- A set of receivers holds an id once, and so does each array of the table of `BusInner::new`
-- (src/lib.rs).
use messagebus.Base.{
  ℕ, ◌+◌, ◌≤◌, ◌≡◌, refl, false, List, [], ◌∷◌, arith, ◌==◌, ℕ-eq, if◌then◌else◌, inl, inr,
  Bool-cases,
}
use messagebus.Wrapper.Accept.{AcceptItem}
use messagebus.Table.{get, get-insert}
use messagebus.Lookup.{
  Receiver, LookupQuery, LookupTable, LookupQuery-eq, has_id, set_insert, or_empty, enter, queries,
  enter_all, enter_items, enter_receivers, arrange_all, new,
}

-- How many receivers of the list have the id.
abbrev pub count : ℕ → List Receiver → ℕ
count k [] = 0
count k (r ∷ rs) = (if r.id == k then 1 else 0) + count k rs

-- A set is run through in some order, each of its elements once.
abbrev pub IsOrder : (List Receiver → List Receiver) → Type 0
IsOrder arrange = (k : ℕ) (rs : List Receiver) → count k (arrange rs) ≡ count k rs

pub no_count : (k : ℕ) (rs : List Receiver) → count k rs ≡ 0 → has_id k rs ≡ false
unfolding has_id
no_count k [] h = refl
no_count k (r ∷ rs) h = ground (arith, no_count k rs)

pub count-set_insert :
    (k : ℕ) (r : Receiver) (rs : List Receiver)
    → count r.id rs ≡ 0
    → count k (set_insert r rs) ≡ count k (r ∷ rs)
unfolding set_insert
count-set_insert k r rs h = rw (no_count r.id rs h) refl

-- No id stands twice.
abbrev pub Unique : List Receiver → Type 0
Unique rs = (k : ℕ) → count k rs ≤ 1

has_count : (k : ℕ) (rs : List Receiver) → has_id k rs ≡ false → count k rs ≡ 0
unfolding has_id
has_count k [] h = refl
has_count k (r ∷ rs) h = ground (arith, has_count k rs)

cons-Unique : (r : Receiver) (rs : List Receiver) → count r.id rs ≡ 0 → Unique rs → Unique (r ∷ rs)
cons-Unique r rs z u k = ground (arith, u k)

set_insert-Unique : (r : Receiver) (rs : List Receiver) → Unique rs → Unique (set_insert r rs)
unfolding set_insert
set_insert-Unique r rs u = elim (Bool-cases (has_id r.id rs)) [
  | inl held ↦ rw held u
  | inr free ↦ rw free (cons-Unique r rs (has_count r.id rs free) u)
]

-- Each list of the table holds an id once.
AllUnique : LookupTable → Type 0
AllUnique m = (j : LookupQuery) → Unique (or_empty (get j m))

enter-AllUnique :
    (q : LookupQuery) (r : Receiver) (m : LookupTable) → AllUnique m → AllUnique (enter q r m)
unfolding enter AllUnique
enter-AllUnique q r m u j k = ground (
  arith,
  get-insert q j (set_insert r (or_empty (get q m))) m,
  set_insert-Unique r (or_empty (get q m)) (u q) k,
  u j k,
)

enter_all-AllUnique :
    (qs : List LookupQuery) (r : Receiver) (m : LookupTable)
    → AllUnique m
    → AllUnique (enter_all qs r m)
unfolding enter_all
enter_all-AllUnique [] r m u = u
enter_all-AllUnique (q ∷ qs) r m u =
    enter_all-AllUnique qs r (enter q r m) (enter-AllUnique q r m u)

enter_items-AllUnique :
    (its : List AcceptItem) (r : Receiver) (m : LookupTable)
    → AllUnique m
    → AllUnique (enter_items its r m)
unfolding enter_items
enter_items-AllUnique [] r m u = u
enter_items-AllUnique (it ∷ its) r m u =
    enter_items-AllUnique its r (enter_all (queries it) r m)
      (enter_all-AllUnique (queries it) r m u)

enter_receivers-AllUnique :
    (rs : List Receiver) (m : LookupTable) → AllUnique m → AllUnique (enter_receivers rs m)
unfolding enter_receivers
enter_receivers-AllUnique [] m u = u
enter_receivers-AllUnique (r ∷ rs) m u =
    enter_receivers-AllUnique rs (enter_items r.iter_types r m)
      (enter_items-AllUnique r.iter_types r m u)

module _ (arrange : List Receiver → List Receiver) (order : IsOrder arrange) where
  count-arrange_all :
      (k : ℕ) (j : LookupQuery) (m : LookupTable)
      → count k (or_empty (get j (arrange_all arrange m))) ≡ count k (or_empty (get j m))
  unfolding arrange_all get
  count-arrange_all k j [] = refl
  count-arrange_all k j ((q, rs) ∷ m) = ground (arith, order k rs, count-arrange_all k j m)

  -- Under each query, the table names each receiver at most once, in whatever order the sets are run
  -- through and whatever types the receivers declare, be it the same one twice.
  pub new-Unique :
      (rs : List Receiver) (j : LookupQuery) → Unique (or_empty (get j (new arrange rs)))
  unfolding new AllUnique get
  new-Unique rs j k = omega (
    arith,
    count-arrange_all k j (enter_receivers rs []),
    enter_receivers-AllUnique rs [] (λ j k. omega arith) j k,
  )
