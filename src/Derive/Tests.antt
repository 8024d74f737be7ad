-- ===== src/Derive/Tests.antt =====
-- Derived types at concrete inputs.
use Prim.Native.Char.{code}
use text.Mathlib.TextLemmas.{nil-append, cons-append}
use messagebus.Base.{
  ◌≡◌, refl, sym, ap, ◌∙◌, ◌⊎◌, String, Bool, true, false, ◌&&◌, Option, none, some, List, [], ◌∷◌,
  map, arith, ◌==◌, ℕ-eq, String-eq, if◌then◌else◌,
}
use messagebus.Message.{returns, panics}
use messagebus.Derive.{
  ◌+++◌, lifetime, type_param, TagExpr, formatted, base_name, Syn, DeriveInput, type_tag_part,
  Derived, derive_message, is_empty,
}
use messagebus.Derive.Flags.{is_fine, flags, last_text, derive_message_lem}
use messagebus.Derive.TagText.{
  Format, is_plain, has_const, brackets, type_idents, tag_text, type_tag_part_lem,
}

-- A scanner for `{}`: behind an opened brace one character is passed over.
abbrev scan : Bool → String → List String → String
scan inside String.[] vs = ""
scan true (String.◌∷◌ c s) vs = scan false s vs
scan false (String.◌∷◌ c s) [] =
    if code c == b'{' then scan true s [] else String.◌∷◌ c (scan false s [])
scan false (String.◌∷◌ c s) (v ∷ vs) =
    if code c == b'{' then v +++ scan true s vs else String.◌∷◌ c (scan false s (v ∷ vs))

scan-plain : (s : String) → is_plain s ≡ true → scan false s [] ≡ s
scan-plain String.[] h = refl
scan-plain (String.◌∷◌ c s) h =
    let other : (code c == b'{') ≡ false = ground arith in
    rw other (ap (λ t. String.◌∷◌ c t) (scan-plain s (ground arith)))

braces : (rest : String) → "{}" +++ rest ≡ String.◌∷◌ "{" (String.◌∷◌ "}" rest)
braces rest =
    cons-append "{" "}" rest
    ∙ ap (λ t. String.◌∷◌ "{" t)
        (cons-append "}" "" rest ∙ ap (λ t. String.◌∷◌ "}" t) (nil-append rest))

scan-hole :
    (s rest : String) (v : String) (vs : List String)
    → is_plain s ≡ true
    → scan false (s +++ "{}" +++ rest) (v ∷ vs) ≡ s +++ v +++ scan false rest vs
scan-hole String.[] rest v vs h =
    rw (nil-append ("{}" +++ rest), braces rest) (sym (nil-append (v +++ scan false rest vs)))
scan-hole (String.◌∷◌ c s) rest v vs h =
    let other : (code c == b'{') ≡ false = ground arith in
    rw (cons-append c s ("{}" +++ rest), other)
      (ap (λ t. String.◌∷◌ c t) (scan-hole s rest v vs (ground arith))
        ∙ sym (cons-append c s (v +++ scan false rest vs)))

abbrev scanner : Format
scanner = record { format = scan false; plain = scan-plain; hole = scan-hole }

-- The tokens of an attribute are what it parses to.
abbrev token_pairs : Syn
token_pairs = record {
  Tokens = Option (List String) × Option (List String);
  parse_idents = λ ts. ts.0;
  parse_texts = λ ts. ts.1;
}

-- `#[message(shared, clone)] #[namespace("test")] struct Pair<'a, A, B>`.
abbrev pair : DeriveInput token_pairs
pair = record {
  ident = "Pair";
  params = lifetime "'a" ∷ type_param "A" [] ∷ type_param "B" [] ∷ [];
  attrs =
      record { path = some "message"; tokens = (some ("shared" ∷ "clone" ∷ []), none) }
      ∷ record { path = some "namespace"; tokens = (none, some ("test" ∷ [])) }
      ∷ [];
}

abbrev tags : String → String
tags i = if i == "A" then "u64" else "bool"

pair_tag :
    tag_text scanner tags (formatted "test::Pair<{},{}>" ("A" ∷ "B" ∷ [])) ≡ "test::Pair<u64,bool>"
unfolding tag_text
pair_tag = refl

plain_name : is_plain (base_name "Pair" none (some "test")) ≡ true
unfolding base_name
plain_name = refl

type_tag_part_lem_example :
    ((has_const pair.params ≡ true) × (type_tag_part token_pairs pair none (some "test") ≡ panics))
    ⊎ ((has_const pair.params ≡ false)
        × ((e : TagExpr) × (type_tag_part token_pairs pair none (some "test") ≡ returns e)
            × (tag_text scanner tags e
                ≡ base_name "Pair" none (some "test")
                  +++ brackets (map tags (type_idents pair.params)))))
type_tag_part_lem_example =
    type_tag_part_lem scanner token_pairs pair none (some "test") tags plain_name

derive_message_lem_example :
    ((is_fine token_pairs pair ≡ false) × (derive_message token_pairs pair ≡ panics))
    ⊎ ((is_fine token_pairs pair ≡ true)
        × ((d : Derived) × (derive_message token_pairs pair ≡ returns d)
            × (d.tags.has_clone ≡ flags token_pairs "clone" pair.attrs)
            × (d.tags.has_shared ≡ flags token_pairs "shared" pair.attrs)
            × (type_tag_part token_pairs pair
                  (last_text token_pairs "type_tag" pair.attrs none)
                  (last_text token_pairs "namespace" pair.attrs none)
                ≡ returns d.tag)
            × (d.registers ≡ (flags token_pairs "shared" pair.attrs && is_empty pair.params))))
derive_message_lem_example = derive_message_lem token_pairs pair
