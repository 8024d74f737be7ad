-- ===== src/Table.antt =====
-- Tables keyed by a type tag, for the hash maps of the repository (`DashMap`, `HashMap`): an
-- association list that holds a key at most once, since a key is only added where it is missing.
use messagebus.Base.{
  ◌≢◌, ◌≡◌, refl, Bool, true, false, Option, none, some, List, [], ◌∷◌, arith, ◌==◌, Eq,
  if◌then◌else◌, beq_self,
}

module _ {K V : Type 0} ⦃e : Eq K⦄ where
  unfoldable pub get : K → List (K × V) → Option V
  get k [] = none
  get k ((j, v) ∷ m) = if j == k then some v else get k m

  unfoldable pub contains_key : K → List (K × V) → Bool
  contains_key k [] = false
  contains_key k ((j, v) ∷ m) = if j == k then true else contains_key k m

  -- `insert`: an old value of the key is replaced.
  unfoldable pub insert : K → V → List (K × V) → List (K × V)
  insert k v [] = (k, v) ∷ []
  insert k v ((j, w) ∷ m) = if j == k then (j, v) ∷ m else (j, w) ∷ insert k v m

  pub get-insert :
      (k j : K) (v : V) (m : List (K × V))
      → get j (insert k v m) ≡ (if k == j then some v else get j m)
  unfolding get insert
  get-insert k j v [] = refl
  get-insert k j v ((i, w) ∷ m) =
      ground (arith, e.beq_iff k j, e.beq_iff i k, e.beq_iff i j, get-insert k j v m)

  pub get-insert_self : (k : K) (v : V) (m : List (K × V)) → get k (insert k v m) ≡ some v
  get-insert_self k v m = ground (arith, get-insert k k v m, beq_self k)

  pub get-insert_ne : (k j : K) (v : V) (m : List (K × V)) → k ≢ j → get j (insert k v m) ≡ get j m
  get-insert_ne k j v m n = ground (arith, get-insert k j v m, e.beq_iff k j)

  pub contains_key-get :
      (k : K) (m : List (K × V))
      → contains_key k m ≡ elim (get k m) [ some v ↦ true | none ↦ false ]
  unfolding get contains_key
  contains_key-get k [] = refl
  contains_key-get k ((j, v) ∷ m) = ground (arith, contains_key-get k m)

  pub insert-insert :
      (k : K) (v w : V) (m : List (K × V)) → insert k w (insert k v m) ≡ insert k w m
  unfolding insert
  insert-insert k v w [] = ground (arith, beq_self k)
  insert-insert k v w ((j, x) ∷ m) = ground (arith, beq_self k, insert-insert k v w m)

  -- To insert what is there changes nothing.
  pub insert-get : (k : K) (v : V) (m : List (K × V)) → get k m ≡ some v → insert k v m ≡ m
  unfolding insert get
  insert-get k v [] h = absurd (cc)
  insert-get k v ((j, x) ∷ m) h = ground (arith, insert-get k v m)
