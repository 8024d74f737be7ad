-- ===== src/Relay/Tags.antt =====
-- The places of a relay, tag by tag (src/relay.rs).
use messagebus.Base.{
  ℕ, ◌+◌, ◌≤◌, ◌<◌, ◌≡◌, ◌≢◌, refl, ◌∙◌, ◌⊎◌, inl, inr, true, false, Option, none, some, arith,
  ◌==◌, String-eq, if◌then◌else◌, Option-cases, Bool-cases, beq_self, subst, sym,
}
use messagebus.Message.{TypeTag}
use messagebus.Table.{get, insert, get-insert, get-insert_self, get-insert_ne, contains_key-get}
use native.Mathlib.Decide.{dec_lt}
use messagebus.Relay.{TagContext, TagTable, new_tag, ensure, reserve_tag, reserve_in, update_tag}

-- The places taken of a tag: none where the tag has no context.
abbrev pub places_of : Option TagContext → ℕ
places_of none = 0
places_of (some c) = c.processing

abbrev pub HasLimit : Option TagContext → Type 0
HasLimit none = Unit
HasLimit (some c) = c.limit ≡ 16

pub get-ensure :
    (t : TypeTag) (m : TagTable)
    → HasLimit (get t m)
    → get t (ensure t m) ≡ some (record { limit = 16; processing = places_of (get t m) })
unfolding ensure new_tag
get-ensure t m h = ground (arith, contains_key-get t m, get-insert t t (new_tag 16) m, beq_self t)

pub get-ensure_ne : (t j : TypeTag) (m : TagTable) → t ≢ j → get j (ensure t m) ≡ get j m
unfolding ensure new_tag
get-ensure_ne t j m n =
    ground (arith, contains_key-get t m, get-insert t j (new_tag 16) m, String-eq.beq_iff t j)

pub reserve_in_room :
    (t : TypeTag) (m : TagTable)
    → HasLimit (get t m)
    → places_of (get t m) < 16
    → reserve_in t m
      ≡ (insert t (record { limit = 16; processing = places_of (get t m) + 1 }) (ensure t m), true)
unfolding reserve_in reserve_tag
reserve_in_room t m h room = ground (arith, get-ensure t m h)

pub reserve_in_full :
    (t : TypeTag) (m : TagTable)
    → HasLimit (get t m)
    → 16 ≤ places_of (get t m)
    → reserve_in t m ≡ (ensure t m, false)
unfolding reserve_in reserve_tag
reserve_in_full t m h full = ground (arith, get-ensure t m h)

-- What a reservation does to a tag with `n` places taken: while `n` is below 16 it is granted and
-- takes one more, and from then on it is refused and changes nothing.
pub reserve_in_lem :
    (t : TypeTag) (m : TagTable)
    → HasLimit (get t m)
    → let n = places_of (get t m) in
      let (m', granted) = reserve_in t m in
      ((n < 16) × (granted ≡ true) × (get t m' ≡ some (record { limit = 16; processing = n + 1 })))
      ⊎ ((16 ≤ n) × (granted ≡ false) × (get t m' ≡ some (record { limit = 16; processing = n })))
unfolding reserve_in reserve_tag
reserve_in_lem t m h = elim (dec_lt (places_of (get t m)) 16) [
  | yes room ↦ rw (reserve_in_room t m h room) (inl (room, refl, get-insert_self t _ (ensure t m)))
  | no full ↦
      let full' : 16 ≤ places_of (get t m) = omega arith in
      rw (reserve_in_full t m h full') (inr (full', refl, get-ensure t m h))
]

-- A reservation of one tag leaves the places of every other as they were.
pub reserve_in_ne : (t j : TypeTag) (m : TagTable) → t ≢ j → get j (reserve_in t m).0 ≡ get j m
unfolding reserve_in
reserve_in_ne t j m n =
    let same = get-ensure_ne t j m n in
    elim (Option-cases (get t (ensure t m))) [
      | inl e ↦ rw (e, reserve_in) same
      | inr (c, e) ↦ elim (Option-cases (reserve_tag c)) [
        | inl e' ↦ rw (e, reserve_in) (rw e' same)
        | inr (c', e') ↦ rw (e, reserve_in) (rw e' (get-insert_ne t j c' (ensure t m) n ∙ same))
      ]
    ]

pub update_tag_ne :
    (t j : TypeTag) (f : TagContext → TagContext) (m : TagTable)
    → t ≢ j
    → get j (update_tag t f m) ≡ get j m
unfolding update_tag
update_tag_ne t j f m n = elim (Option-cases (get t m)) [
  | inl e ↦ rw (e, update_tag)
  | inr (c, e) ↦ rw (e, update_tag) (get-insert_ne t j (f c) m n)
]

-- A reservation of tag `j`, as the places of tag `t` see it.
abbrev pub Counted : TypeTag → TypeTag → TagTable → Type 0
Counted t j m =
    HasLimit (get t (reserve_in j m).0)
    × (places_of (get t (reserve_in j m).0)
        ≡ places_of (get t m) + (if j == t then (if (reserve_in j m).1 then 1 else 0) else 0))
    × (places_of (get t (reserve_in j m).0) ≤ 16)

reserve_in_self :
    (t : TypeTag) (m : TagTable) → HasLimit (get t m) → places_of (get t m) ≤ 16 → Counted t t m
reserve_in_self t m h le = elim (reserve_in_lem t m h) [
  | inl (room, granted, now) ↦ rw (now, granted, beq_self t) (refl, refl, omega arith)
  | inr (full, refused, now) ↦ rw (now, refused, beq_self t) (refl, omega arith, omega arith)
]

pub reserve_in-Counted :
    (t j : TypeTag) (m : TagTable) → HasLimit (get t m) → places_of (get t m) ≤ 16 → Counted t j m
reserve_in-Counted t j m h le = elim (Bool-cases (j == t)) [
  | inl same ↦
      subst (λ k. Counted t k m) (sym ((String-eq.beq_iff j t).0 same)) (reserve_in_self t m h le)
  | inr other ↦
      let apart : j ≢ t = λ e. let same = (String-eq.beq_iff j t).1 e in cc in
      rw (reserve_in_ne j t m apart, other) (h, omega arith, le)
]
