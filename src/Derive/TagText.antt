-- ===== src/Derive/TagText.antt =====
-- The type tag of a derived type (crates/derive/src/lib.rs, `type_tag_part`).
use Prim.Native.Char.{code}
use text.Mathlib.TextLemmas.{append_assoc, append-nil, nil-append, cons-append}
use messagebus.Base.{
  ◌≡◌, refl, sym, ap, ap₂, ◌∙◌, ◌⊎◌, inl, inr, String, Bool, true, false, not, ◌&&◌, ◌||◌, Option,
  List, [], ◌∷◌, ◌++◌, map, arith, Bool-cases, ◌==◌, ℕ-eq,
}
use mathlib.Core.List
use messagebus.Message.{returns, panics}
use messagebus.Derive.{
  ◌+++◌, Param, lifetime, type_param, const_param, Syn, DeriveInput, TagExpr, literal, formatted,
  base_name, name_params, tag_expr, type_tag_part,
}

-- No brace stands in a text.
abbrev pub is_plain : String → Bool
is_plain String.[] = true
is_plain (String.◌∷◌ c s) = not (code c == b'{' || code c == b'}') && is_plain s

-- What `format!` does with a text and its arguments: `{}` takes the next one, and a text without braces
-- stands for itself.
pub record Format : Type 0 where
  pub format : String → List String → String
  pub plain : (s : String) → is_plain s ≡ true → format s [] ≡ s
  pub hole :
      (s rest : String) (v : String) (vs : List String)
      → is_plain s ≡ true
      → format (s +++ "{}" +++ rest) (v ∷ vs) ≡ s +++ v +++ format rest vs

-- The type parameters, in their order.
abbrev pub type_idents : List Param → List String
type_idents [] = []
type_idents (type_param i bounds ∷ ps) = i ∷ type_idents ps
type_idents (p ∷ ps) = type_idents ps

abbrev pub is_const : Param → Bool
is_const (const_param c) = true
is_const p = false

abbrev pub has_const : List Param → Bool
has_const [] = false
has_const (p ∷ ps) = is_const p || has_const ps

abbrev pub commas : List String → String
commas [] = ">"
commas (v ∷ vs) = "," +++ v +++ commas vs

-- The tags of the parameters, in angle brackets where there is one.
abbrev pub brackets : List String → String
brackets [] = ""
brackets (v ∷ vs) = "<" +++ v +++ commas vs

module _ (fmt : Format) where
  open fmt use {format}

  -- What the generated `type_tag_` returns, where `tag_of` has the tags of the parameters.
  unfoldable pub tag_text : (String → String) → TagExpr → String
  tag_text tag_of (literal s) = s
  tag_text tag_of (formatted s is) = format s (map tag_of is)

-- What the loop writes for the parameters after the first one, and for all.
abbrev pub gaps : List String → String
gaps [] = ""
gaps (i ∷ is) = "," +++ "{}" +++ gaps is

abbrev pub named : String → List String → List String → String × List String × Bool
named name values [] = (name, values, false)
named name values (i ∷ is) = (name +++ "<" +++ "{}" +++ gaps is, values ++ i ∷ is, true)

name_params-open :
    (ps : List Param) (name : String) (values : List String)
    → has_const ps ≡ false
    → name_params ps name values true
      ≡ returns (name +++ gaps (type_idents ps), values ++ type_idents ps, true)
unfolding name_params
name_params-open [] name values h = ap returns (
    ap₂ (λ (n : String) (v : List String). (n, v, true)) (sym (append-nil name))
      (sym (List.append-nil values)))
name_params-open (lifetime l ∷ ps) name values h = name_params-open ps name values h
name_params-open (type_param i bounds ∷ ps) name values h =
    name_params-open ps (name +++ "," +++ "{}") (values ++ i ∷ []) h
    ∙ ap returns (
        ap₂ (λ (n : String) (v : List String). (n, v, true))
          (append_assoc name ("," +++ "{}") (gaps (type_idents ps))
            ∙ ap (λ t. name +++ t) (append_assoc "," "{}" (gaps (type_idents ps))))
          (List.append_assoc values (i ∷ []) (type_idents ps)))
name_params-open (const_param c ∷ ps) name values h = cc

name_params-named :
    (ps : List Param) (name : String) (values : List String)
    → has_const ps ≡ false
    → name_params ps name values false ≡ returns (named name values (type_idents ps))
unfolding name_params
name_params-named [] name values h = refl
name_params-named (lifetime l ∷ ps) name values h = name_params-named ps name values h
name_params-named (type_param i bounds ∷ ps) name values h =
    name_params-open ps (name +++ "<" +++ "{}") (values ++ i ∷ []) h
    ∙ ap returns (
        ap₂ (λ (n : String) (v : List String). (n, v, true))
          (append_assoc name ("<" +++ "{}") (gaps (type_idents ps))
            ∙ ap (λ t. name +++ t) (append_assoc "<" "{}" (gaps (type_idents ps))))
          (List.append_assoc values (i ∷ []) (type_idents ps)))
name_params-named (const_param c ∷ ps) name values h = cc

name_params-const :
    (ps : List Param) (name : String) (values : List String) (close : Bool)
    → has_const ps ≡ true
    → name_params ps name values close ≡ panics
unfolding name_params
name_params-const [] name values close h = cc
name_params-const (lifetime l ∷ ps) name values close h = name_params-const ps name values close h
name_params-const (type_param i bounds ∷ ps) name values close h =
    name_params-const ps _ (values ++ i ∷ []) true h
name_params-const (const_param c ∷ ps) name values close h = refl

module _ (syn : Syn) (ast : DeriveInput syn) (tt' ns : Option String) where
  pub type_tag_part_const : has_const ast.params ≡ true → type_tag_part syn ast tt' ns ≡ panics
  unfolding type_tag_part
  type_tag_part_const h =
      rw (name_params-const ast.params (base_name ast.ident tt' ns) [] false h) refl

  pub type_tag_part_returns :
      has_const ast.params ≡ false
      → type_tag_part syn ast tt' ns
        ≡ returns (tag_expr (named (base_name ast.ident tt' ns) [] (type_idents ast.params)))
  unfolding type_tag_part
  type_tag_part_returns h = rw (name_params-named ast.params (base_name ast.ident tt' ns) [] h) refl

is_plain-append : (s t : String) → is_plain s ≡ true → is_plain t ≡ true → is_plain (s +++ t) ≡ true
is_plain-append String.[] t h k = rw (nil-append t) k
is_plain-append (String.◌∷◌ c s) t h k =
    rw (cons-append c s t) (ground (arith, is_plain-append s t))

module _ (fmt : Format) where
  open fmt use {format, plain, hole}

  format-gaps :
      (tag_of : String → String) (is : List String)
      → format (gaps is +++ ">") (map tag_of is) ≡ commas (map tag_of is)
  format-gaps tag_of [] = ap (λ t. format t []) (nil-append ">") ∙ plain ">" refl
  format-gaps tag_of (i ∷ is) =
      ap (λ t. format t (tag_of i ∷ map tag_of is))
        (append_assoc "," ("{}" +++ gaps is) ">"
          ∙ ap (λ t. "," +++ t) (append_assoc "{}" (gaps is) ">"))
      ∙ hole "," (gaps is +++ ">") (tag_of i) (map tag_of is) refl
      ∙ ap (λ t. "," +++ tag_of i +++ t) (format-gaps tag_of is)

  -- The text that is written for a type with parameters, with the tags in its holes.
  format-named :
      (tag_of : String → String) (name i : String) (is : List String)
      → is_plain name ≡ true
      → format ((name +++ "<" +++ "{}" +++ gaps is) +++ ">") (map tag_of (i ∷ is))
        ≡ name +++ brackets (map tag_of (i ∷ is))
  format-named tag_of name i is h =
      ap (λ t. format t (map tag_of (i ∷ is)))
        (append_assoc name ("<" +++ "{}" +++ gaps is) ">"
          ∙ ap (λ t. name +++ t)
              (append_assoc "<" ("{}" +++ gaps is) ">"
                ∙ ap (λ t. "<" +++ t) (append_assoc "{}" (gaps is) ">"))
          ∙ sym (append_assoc name "<" ("{}" +++ gaps is +++ ">")))
      ∙ hole (name +++ "<") (gaps is +++ ">") (tag_of i) (map tag_of is)
          (is_plain-append name "<" h refl)
      ∙ append_assoc name "<" (tag_of i +++ format (gaps is +++ ">") (map tag_of is))
      ∙ ap (λ t. name +++ "<" +++ tag_of i +++ t) (format-gaps tag_of is)

  tag_text-named :
      (tag_of : String → String) (name : String) (is : List String)
      → is_plain name ≡ true
      → tag_text fmt tag_of (tag_expr (named name [] is)) ≡ name +++ brackets (map tag_of is)
  unfolding tag_text tag_expr
  tag_text-named tag_of name [] h = sym (append-nil name)
  tag_text-named tag_of name (i ∷ is) h = format-named tag_of name i is h

  -- The tag of a derived type, where no brace stands in its name: that name, followed by the tags of its
  -- type parameters in their order, in angle brackets and with commas between them, if there is one. The
  -- name is the type tag that was given; without one it is the identifier of the type, after the namespace
  -- that was given and `::`, or alone. Lifetimes do not count. The macro panics where there is a const
  -- parameter, and there only.
  pub type_tag_part_lem :
      (syn : Syn) (ast : DeriveInput syn) (tt' ns : Option String) (tag_of : String → String)
      → is_plain (base_name ast.ident tt' ns) ≡ true
      → ((has_const ast.params ≡ true) × (type_tag_part syn ast tt' ns ≡ panics))
        ⊎ ((has_const ast.params ≡ false)
            × ((e : TagExpr) × (type_tag_part syn ast tt' ns ≡ returns e)
                × (tag_text fmt tag_of e
                    ≡ base_name ast.ident tt' ns
                      +++ brackets (map tag_of (type_idents ast.params)))))
  type_tag_part_lem syn ast tt' ns tag_of h =
      let name : String = base_name ast.ident tt' ns in
      let is : List String = type_idents ast.params in
      elim (Bool-cases (has_const ast.params)) [
        | inl const ↦ inl (const, type_tag_part_const syn ast tt' ns const)
        | inr free ↦ inr (
          free,
          (
            tag_expr (named name [] is),
            type_tag_part_returns syn ast tt' ns free,
            tag_text-named tag_of name is h,
          ),
        )
      ]
