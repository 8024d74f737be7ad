-- ===== src/Lookup/Queries.antt =====
-- What the table of `BusInner::new` (src/lib.rs) holds under a query.
use messagebus.Base.{
  ℕ, ◌≡◌, refl, ◌∙◌, Bool, true, false, ◌&&◌, ◌||◌, Option, none, some, List, [], ◌∷◌, arith, ◌==◌,
  ℕ-eq, String-eq, ap, sym, All,
}
use messagebus.Message.{TypeTag}
use messagebus.Wrapper.Accept.{AcceptItem}
use messagebus.Table.{get, get-insert}
use messagebus.Lookup.{
  Receiver, LookupQuery, LookupQuery-eq, query_beq_iff, LookupTable, has_id, set_insert, or_empty,
  enter, queries, enter_all, enter_items, enter_receivers, arrange_all, new,
}

abbrev pub has_query : LookupQuery → List LookupQuery → Bool
has_query j [] = false
has_query j (q ∷ qs) = (q == j) || has_query j qs

-- A query that names no tag leaves it open.
abbrev pub matches : Option TypeTag → TypeTag → Bool
matches none t = true
matches (some a) t = t == a

abbrev pub absent : Option TypeTag → Bool
absent none = true
absent (some a) = false

-- An item answers a query: it has the message type, and the response and the error type wherever the
-- query names one; an item without these answers only a query that names neither.
abbrev pub fits : LookupQuery → AcceptItem → Bool
fits j (msg, none) = msg == j.tid && (absent j.rid && absent j.eid)
fits j (msg, some (resp, error)) = msg == j.tid && (matches j.rid resp && matches j.eid error)

has_query-queries :
    (t : TypeTag) (r e : Option TypeTag) (it : AcceptItem)
    → has_query (record { tid = t; rid = r; eid = e }) (queries it)
      ≡ fits (record { tid = t; rid = r; eid = e }) it
unfolding queries
has_query-queries t none none (msg, none) = ground arith
has_query-queries t none none (msg, some (resp, error)) = ground arith
has_query-queries t none (some e) (msg, none) = ground arith
has_query-queries t none (some e) (msg, some (resp, error)) = ground arith
has_query-queries t (some r) none (msg, none) = ground arith
has_query-queries t (some r) none (msg, some (resp, error)) = ground arith
has_query-queries t (some r) (some e) (msg, none) = ground arith
has_query-queries t (some r) (some e) (msg, some (resp, error)) = ground arith

-- Some item of the list answers the query.
pub asks : LookupQuery → List AcceptItem → Bool
asks j [] = false
asks j (it ∷ its) = fits j it || asks j its

-- Some receiver of the list has the id and asks for the query.
pub declares : ℕ → LookupQuery → List Receiver → Bool
declares i j [] = false
declares i j (r ∷ rs) = (asks j r.iter_types && (r.id == i)) || declares i j rs

-- The receiver of that id is found under the query.
abbrev pub found : ℕ → LookupQuery → LookupTable → Bool
found i j m = has_id i (or_empty (get j m))

has_id-set_insert :
    (i : ℕ) (r : Receiver) (rs : List Receiver)
    → has_id i (set_insert r rs) ≡ ((r.id == i) || has_id i rs)
unfolding set_insert
has_id-set_insert i r rs = ground arith

found-enter :
    (i : ℕ) (j q : LookupQuery) (r : Receiver) (m : LookupTable)
    → found i j (enter q r m) ≡ (((q == j) && (r.id == i)) || found i j m)
unfolding enter
found-enter i j q r m = ground (
  arith,
  get-insert q j (set_insert r (or_empty (get q m))) m,
  has_id-set_insert i r (or_empty (get q m)),
  query_beq_iff q j,
)

found-enter_all :
    (i : ℕ) (j : LookupQuery) (qs : List LookupQuery) (r : Receiver) (m : LookupTable)
    → found i j (enter_all qs r m) ≡ ((has_query j qs && (r.id == i)) || found i j m)
unfolding enter_all
found-enter_all i j [] r m = refl
found-enter_all i j (q ∷ qs) r m =
    ground (arith, found-enter_all i j qs r (enter q r m), found-enter i j q r m)

found-enter_items :
    (i : ℕ) (j : LookupQuery) (its : List AcceptItem) (r : Receiver) (m : LookupTable)
    → found i j (enter_items its r m) ≡ ((asks j its && (r.id == i)) || found i j m)
unfolding enter_items asks
found-enter_items i j [] r m = refl
found-enter_items i j (it ∷ its) r m = ground (
  arith,
  found-enter_items i j its r (enter_all (queries it) r m),
  found-enter_all i j (queries it) r m,
  has_query-queries j.tid j.rid j.eid it,
)

found-enter_receivers :
    (i : ℕ) (j : LookupQuery) (rs : List Receiver) (m : LookupTable)
    → found i j (enter_receivers rs m) ≡ (declares i j rs || found i j m)
unfolding enter_receivers declares
found-enter_receivers i j [] m = refl
found-enter_receivers i j (r ∷ rs) m = ground (
  arith,
  found-enter_receivers i j rs (enter_items r.iter_types r m),
  found-enter_items i j r.iter_types r m,
)

-- Every element of the list passes the test.
abbrev pub every : (Receiver → Bool) → List Receiver → Bool
every p [] = true
every p (r ∷ rs) = p r && every p rs

or_false : (b : Bool) → (b || false) ≡ b
or_false true = refl
or_false false = refl

-- An order in which the sets of receivers are run through: it has the elements of the set.
pub record IsArrangement (arrange : List Receiver → List Receiver) : Type 0 where
  pub same : (i : ℕ) (rs : List Receiver) → has_id i (arrange rs) ≡ has_id i rs
  pub kept :
      (p : Receiver → Bool) (rs : List Receiver) → every p rs ≡ true → every p (arrange rs) ≡ true
  pub none_added : arrange [] ≡ []

get-arrange_all :
    (arrange : List Receiver → List Receiver) (j : LookupQuery) (m : LookupTable)
    → arrange [] ≡ []
    → or_empty (get j (arrange_all arrange m)) ≡ arrange (or_empty (get j m))
unfolding arrange_all get
get-arrange_all arrange j [] e = sym e
get-arrange_all arrange j ((q, rs) ∷ m) e = ground (arith, get-arrange_all arrange j m e)

-- Under each query the table of a bus holds, by id, exactly the receivers that declare it: those
-- with an item of `iter_types` that has the message type of the query, and the response and the
-- error type wherever the query names one. This holds in whatever order the sets are run through.
pub found-new :
    (arrange : List Receiver → List Receiver)
    → IsArrangement arrange
    → (rs : List Receiver) (i : ℕ) (j : LookupQuery) → found i j (new arrange rs) ≡ declares i j rs
unfolding new get has_id
found-new arrange a rs i j =
    ap (has_id i) (get-arrange_all arrange j (enter_receivers rs []) a.none_added)
    ∙ a.same i _
    ∙ found-enter_receivers i j rs []
    ∙ or_false (declares i j rs)

module _ (p : LookupQuery → Receiver → Bool) where
  -- Every receiver in the table passes the test for the query that it is found under.
  abbrev pub Pass : LookupTable → Type 0
  Pass m = (j : LookupQuery) → every (p j) (or_empty (get j m)) ≡ true

  every-set_insert :
      (j : LookupQuery) (r : Receiver) (rs : List Receiver)
      → p j r ≡ true
      → every (p j) rs ≡ true
      → every (p j) (set_insert r rs) ≡ true
  unfolding set_insert
  every-set_insert j r rs h k = ground arith

  enter-Pass :
      (q : LookupQuery) (r : Receiver) (m : LookupTable)
      → p q r ≡ true
      → Pass m
      → Pass (enter q r m)
  unfolding enter
  enter-Pass q r m h k j = ground (
    arith,
    get-insert q j (set_insert r (or_empty (get q m))) m,
    every-set_insert j r (or_empty (get q m)),
    query_beq_iff q j,
    k j,
  )

  enter_all-Pass :
      (qs : List LookupQuery) (r : Receiver) (m : LookupTable)
      → All (λ q. p q r ≡ true) qs
      → Pass m
      → Pass (enter_all qs r m)
  unfolding enter_all
  enter_all-Pass [] r m h k = k
  enter_all-Pass (q ∷ qs) r m h k = enter_all-Pass qs r (enter q r m) h.1 (enter-Pass q r m h.0 k)

  enter_items-Pass :
      (its : List AcceptItem) (r : Receiver) (m : LookupTable)
      → All (λ it. All (λ q. p q r ≡ true) (queries it)) its
      → Pass m
      → Pass (enter_items its r m)
  unfolding enter_items
  enter_items-Pass [] r m h k = k
  enter_items-Pass (it ∷ its) r m h k =
      enter_items-Pass its r (enter_all (queries it) r m) h.1
        (enter_all-Pass (queries it) r m h.0 k)

  -- A receiver passes the test for each of the queries that it is entered under.
  abbrev pub PassesOwn : Receiver → Type 0
  PassesOwn r = All (λ it. All (λ q. p q r ≡ true) (queries it)) r.iter_types

  enter_receivers-Pass :
      (rs : List Receiver) (m : LookupTable)
      → All PassesOwn rs
      → Pass m
      → Pass (enter_receivers rs m)
  unfolding enter_receivers
  enter_receivers-Pass [] m h k = k
  enter_receivers-Pass (r ∷ rs) m h k =
      enter_receivers-Pass rs (enter_items r.iter_types r m) h.1
        (enter_items-Pass r.iter_types r m h.0 k)

  pub new-Pass :
      (arrange : List Receiver → List Receiver)
      → IsArrangement arrange
      → (rs : List Receiver) → All PassesOwn rs
      → Pass (new arrange rs)
  unfolding new get
  new-Pass arrange a rs h j =
      rw (get-arrange_all arrange j (enter_receivers rs []) a.none_added)
        (a.kept (p j) _ (enter_receivers-Pass rs [] h (λ j. refl) j))
