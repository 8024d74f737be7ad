-- ===== src/Lookup/Sound.antt =====
-- What `Bus::select_receivers` (src/lib.rs) chooses.
use messagebus.Base.{
  ℕ, ◌≡◌, refl, ◌∙◌, Bool, true, false, not, ◌&&◌, Option, List, [], ◌∷◌, arith, ◌==◌, ℕ-eq,
  String-eq, ap, sym, subst, All, beq_self,
}
use messagebus.Message.{TypeTag}
use messagebus.Wrapper.Accept.{AcceptItem, Types, asks}
use messagebus.Wrapper.Accept
use messagebus.Lookup.{
  Receiver, LookupQuery, SendOptions, broadcast, except, direct, of_types, accept, has_id, queries,
  new, keep, chosen, select_receivers,
}
use messagebus.Lookup.Queries.{IsArrangement, declares, found-new, new-Pass, PassesOwn, every}

-- The receiver is one that `Receiver::new` makes.
abbrev pub IsTyped : Receiver → Type 0
IsTyped r = (i : ℕ) × (t : Types) × (r ≡ of_types i t)

-- The receiver accepts the query, as a request and, where it asks for nothing back, as a message.
abbrev accepts : Bool → LookupQuery → Receiver → Bool
accepts is_req q r = accept r is_req q.tid q.rid q.eid

of_types-PassesOwn : (is_req : Bool) (i : ℕ) (t : Types) → PassesOwn (accepts is_req) (of_types i t)
unfolding of_types queries accept Accept.iter_types Accept.accept_req Accept.accept_msg
of_types-PassesOwn true i t = ground (arith, beq_self t.msg, beq_self t.resp, beq_self t.error)
of_types-PassesOwn false i t = ground (arith, beq_self t.msg, beq_self t.resp, beq_self t.error)

IsTyped-PassesOwn :
    (is_req : Bool) (rs : List Receiver) → All IsTyped rs → All (PassesOwn (accepts is_req)) rs
IsTyped-PassesOwn is_req [] h = tt
IsTyped-PassesOwn is_req (r ∷ rs) ((i, t, e), h) = (
  subst (PassesOwn (accepts is_req)) (sym e) (of_types-PassesOwn is_req i t),
  IsTyped-PassesOwn is_req rs h,
)

keep-every : (p : Receiver → Bool) (rs : List Receiver) → every p rs ≡ true → keep p rs ≡ rs
unfolding keep
keep-every p [] h = refl
keep-every p (r ∷ rs) h = ground (arith, keep-every p rs)

-- The ids that an option lets through.
abbrev pub allows : SendOptions → ℕ → Bool
allows (except id) i = not (id == i)
allows (direct id) i = id == i
allows _ i = true

has_id-chosen :
    (o : SendOptions) (i : ℕ) (rs : List Receiver)
    → has_id i (keep (chosen o) rs) ≡ (allows o i && has_id i rs)
unfolding has_id keep
has_id-chosen broadcast i [] = refl
has_id-chosen broadcast i (r ∷ rs) = ground (arith, has_id-chosen broadcast i rs)
has_id-chosen (except d) i [] = ground arith
has_id-chosen (except d) i (r ∷ rs) = ground (arith, has_id-chosen (except d) i rs)
has_id-chosen (direct d) i [] = ground arith
has_id-chosen (direct d) i (r ∷ rs) = ground (arith, has_id-chosen (direct d) i rs)
has_id-chosen o i [] = refl
has_id-chosen o i (r ∷ rs) = ground (arith, has_id-chosen o i rs)

-- On the table of a bus of typed receivers, where `arrange` gives the order in which a hash set is run
-- through, `select_receivers` yields, by id, exactly the receivers that declare the query and that the
-- options let through: `Except` lets through every id but its own, `Direct` its own alone, and the other
-- options every id. What a call does with the receivers that it gets is not said.
pub select_receivers_lem :
    (arrange : List Receiver → List Receiver)
    → IsArrangement arrange
    → (rs : List Receiver) → All IsTyped rs
    → (tid : TypeTag) (o : SendOptions) (rid eid : Option TypeTag) (is_req : Bool) (i : ℕ)
    → has_id i (select_receivers (new arrange rs) tid o rid eid is_req)
      ≡ (allows o i && declares i (record { tid = tid; rid = rid; eid = eid }) rs)
unfolding select_receivers
select_receivers_lem arrange a rs h tid o rid eid is_req i =
    let j : LookupQuery = record { tid = tid; rid = rid; eid = eid } in
    let all = new-Pass (accepts is_req) arrange a rs (IsTyped-PassesOwn is_req rs h) j in
    has_id-chosen o i _
    ∙ ap (λ xs. allows o i && has_id i xs) (keep-every (accepts is_req j) _ all)
    ∙ ap (λ b. allows o i && b) (found-new arrange a rs i j)
