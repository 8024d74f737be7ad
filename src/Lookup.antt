-- ===== src/Lookup.antt =====
-- Which receivers a message goes to: `BusInner::new` and `Bus::select_receivers` of src/lib.rs, and
-- the parts of `dyn ReceiverTrait` that they ask (src/receiver.rs).
pub mod Distinct
pub mod Queries
pub mod Sound
pub mod Tests
use messagebus.Base.{
  ℕ, ◌≡◌, refl, ◌↔◌, Bool, true, false, not, ◌&&◌, Option, none, some, List, [], ◌∷◌, ◌++◌, arith,
  ◌==◌, Eq, ℕ-eq, String-eq, Option-eq, option_eq, option_eq_iff, if◌then◌else◌,
}
use messagebus.Message.{TypeTag}
use messagebus.Wrapper.Accept.{AcceptItem, Types}
use messagebus.Wrapper.Accept
use messagebus.Table.{get, insert}

-- What a receiver answers about itself.
pub record Receiver : Type 0 where
  pub id : ℕ
  pub iter_types : List AcceptItem
  pub accept_msg : TypeTag → Bool
  pub accept_req : TypeTag → Option TypeTag → Option TypeTag → Bool

-- A typed receiver, as `Receiver::new` makes it.
unfoldable pub of_types : ℕ → Types → Receiver
of_types id t = record {
  id = id;
  iter_types = Accept.iter_types t;
  accept_msg = Accept.accept_msg t;
  accept_req = Accept.accept_req t;
}

-- `Receiver::accept`.
unfoldable pub accept : Receiver → Bool → TypeTag → Option TypeTag → Option TypeTag → Bool
accept r is_req msg resp error = if is_req then r.accept_req msg resp error else r.accept_msg msg

pub data SendOptions : Type 0 where
  broadcast : SendOptions
  except : ℕ → SendOptions
  direct : ℕ → SendOptions
  random : SendOptions
  balanced : SendOptions

-- `LookupQuery`.
pub record LookupQuery : Type 0 where
  pub tid : TypeTag
  pub rid : Option TypeTag
  pub eid : Option TypeTag

abbrev query_beq : LookupQuery → LookupQuery → Bool
query_beq p q = p.tid == q.tid && (option_eq p.rid q.rid && option_eq p.eid q.eid)

pub query_beq_iff : (p q : LookupQuery) → (query_beq p q ≡ true) ↔ (p ≡ q)
query_beq_iff p q =
    ground
      (arith, String-eq.beq_iff p.tid q.tid, option_eq_iff p.rid q.rid, option_eq_iff p.eid q.eid)

instance abbrev pub LookupQuery-eq : Eq LookupQuery
LookupQuery-eq = record { beq = query_beq; beq_iff = query_beq_iff }

abbrev pub LookupTable : Type 0
LookupTable = List (LookupQuery × List Receiver)

-- A `HashSet<Receiver>` compares receivers by their id.
unfoldable pub has_id : ℕ → List Receiver → Bool
has_id i [] = false
has_id i (r ∷ rs) = if r.id == i then true else has_id i rs

unfoldable pub set_insert : Receiver → List Receiver → List Receiver
unfolding has_id
set_insert r rs = if has_id r.id rs then rs else r ∷ rs

abbrev pub or_empty : Option (List Receiver) → List Receiver
or_empty none = []
or_empty (some rs) = rs

-- `lookup.entry(query).or_insert_with(HashSet::new).insert(recv)`.
unfoldable pub enter : LookupQuery → Receiver → LookupTable → LookupTable
unfolding set_insert
enter q r m = insert q (set_insert r (or_empty (get q m))) m

-- The queries under which one item of `iter_types` is entered.
unfoldable pub queries : AcceptItem → List LookupQuery
queries (msg, none) = record { tid = msg; rid = none; eid = none } ∷ []
queries (msg, some (resp, error)) =
    record { tid = msg; rid = none; eid = none }
    ∷ record { tid = msg; rid = some resp; eid = none }
    ∷ record { tid = msg; rid = none; eid = some error }
    ∷ record { tid = msg; rid = some resp; eid = some error }
    ∷ []

enter_all : List LookupQuery → Receiver → LookupTable → LookupTable
enter_all [] r m = m
enter_all (q ∷ qs) r m = enter_all qs r (enter q r m)

enter_items : List AcceptItem → Receiver → LookupTable → LookupTable
enter_items [] r m = m
enter_items (it ∷ its) r m = enter_items its r (enter_all (queries it) r m)

enter_receivers : List Receiver → LookupTable → LookupTable
enter_receivers [] m = m
enter_receivers (r ∷ rs) m = enter_receivers rs (enter_items r.iter_types r m)

-- Each set becomes an array, in the order in which the set is run through, which `arrange` gives.
arrange_all : (List Receiver → List Receiver) → LookupTable → LookupTable
arrange_all arrange [] = []
arrange_all arrange ((q, rs) ∷ m) = (q, arrange rs) ∷ arrange_all arrange m

-- The table of `BusInner::new`, for the receivers in the order in which their set is run through.
unfoldable pub new : (List Receiver → List Receiver) → List Receiver → LookupTable
unfolding enter enter_all enter_items enter_receivers arrange_all queries
new arrange rs = arrange_all arrange (enter_receivers rs [])

unfoldable pub keep : (Receiver → Bool) → List Receiver → List Receiver
keep p [] = []
keep p (r ∷ rs) = let rest = keep p rs in if p r then r ∷ rest else rest

abbrev pub chosen : SendOptions → Receiver → Bool
chosen (except id) r = not (id == r.id)
chosen (direct id) r = id == r.id
chosen _ r = true

unfoldable pub select_receivers :
    LookupTable → TypeTag → SendOptions → Option TypeTag → Option TypeTag → Bool → List Receiver
unfolding keep
select_receivers m tid options rid eid is_req = keep (chosen options) (
    keep (λ r. accept r is_req tid rid eid)
      (or_empty (get (record { tid = tid; rid = rid; eid = eid }) m)))
