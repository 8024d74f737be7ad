-- ===== src/Derive.antt =====
-- The derive macros of messages and errors (crates/derive/src/lib.rs). What syn parses is given: the
-- identifier and the parameters of the type, and its attributes, whose tokens are read by a parameter.
-- What quote! writes is given by what the generated code does.
pub mod Flags
pub mod TagText
pub mod Tests
use Prim.Native.Char.{code}
use Prim.Native.String
use messagebus.Base.{
  String, Bool, true, false, Option, none, some, List, [], ◌∷◌, ◌++◌, map, ◌&&◌, ◌||◌, ◌==◌,
  String-eq, ℕ-eq, not, if◌then◌else◌,
}
use messagebus.Message.{Call, returns, panics, Result, ok, err}

infixr 65 ◌+++◌
abbrev pub ◌+++◌ : String → String → String
s +++ t = String.◌++◌ s t

-- A parameter of a type, and the bounds of a type parameter.
pub data Param : Type 0 where
  lifetime : String → Param
  type_param : String → List String → Param
  const_param : String → Param

-- `parenthesized!` and `Punctuated::parse_terminated`, for identifiers and for text literals; `none` where
-- the tokens are something else.
pub record Syn : Type 1 where
  pub Tokens : Type 0
  pub parse_idents : Tokens → Option (List String)
  pub parse_texts : Tokens → Option (List String)

pub record Tags : Type 0 where
  pub has_clone : Bool
  pub has_shared : Bool

-- `Tags::default` and `Tags::add`.
abbrev pub no_tags : Tags
no_tags = record { has_clone = false; has_shared = false }

unfoldable pub add : Tags → Tags → Tags
add other t = record {
  has_clone = t.has_clone || other.has_clone;
  has_shared = t.has_shared || other.has_shared;
}

-- The loop of `Tags::parse`.
unfoldable pub read_idents : List String → Tags → Tags
read_idents [] t = t
read_idents (i ∷ is) t = read_idents is (
    if i == "shared"
    then record t { has_shared = true }
    else (if i == "clone" then record t { has_clone = true } else t))

-- What the attributes of a type have said so far.
pub record Said : Type 0 where
  pub tags : Tags
  pub type_tag : Option String
  pub namespace : Option String

abbrev pub nothing_said : Said
nothing_said = record { tags = no_tags; type_tag = none; namespace = none }

abbrev pub and_then {ℓ κ} : {A : Type ℓ} {B : Type κ} → Call A → (A → Call B) → Call B
and_then panics f = panics
and_then (returns a) f = f a

-- The expression of the generated `type_tag_`: a text, or `format!` of the tags of some parameters.
pub data TagExpr : Type 0 where
  literal : String → TagExpr
  formatted : String → List String → TagExpr

unfoldable pub base_name : String → Option String → Option String → String
base_name class (some tt') ns = tt'
base_name class none (some ns) = ns +++ "::" +++ class
base_name class none none = class

-- The loop over the parameters in `type_tag_part`, with `type_name`, the idents in `type_values`, and
-- `need_close`.
unfoldable pub name_params :
    List Param → String → List String → Bool → Call (String × List String × Bool)
name_params [] name values close = returns (name, values, close)
name_params (lifetime l ∷ ps) name values close = name_params ps name values close
name_params (type_param i bounds ∷ ps) name values close =
    name_params ps (name +++ (if close then "," else "<") +++ "{}") (values ++ i ∷ []) true
name_params (const_param c ∷ ps) name values close = panics

-- The end of `type_tag_part`: a tuple of values is written where there is one.
unfoldable pub tag_expr : String × List String × Bool → TagExpr
tag_expr (name, [], close) = literal (if close then name +++ ">" else name)
tag_expr (name, v ∷ values, close) = formatted (if close then name +++ ">" else name) (v ∷ values)

-- The bounds of the type parameters of the generated `impl Message`.
unfoldable pub bounded : Tags → List Param → List Param
bounded t [] = []
bounded t (type_param i bounds ∷ ps) =
    type_param i (
      bounds
      ++ "messagebus::MessageBounds" ∷ []
      ++ (if t.has_shared
          then "messagebus::__reexport::serde::Serialize"
            ∷ "messagebus::__reexport::serde::Deserialize<'de>" ∷ []
          else [])
      ++ (if t.has_clone then "core::clone::Clone" ∷ [] else []))
    ∷ bounded t ps
bounded t (p ∷ ps) = p ∷ bounded t ps

abbrev pub is_empty : List Param → Bool
is_empty [] = true
is_empty (p ∷ ps) = false

-- What is generated for a message: its tag, its parameters, the flags of `shared_part` and
-- `clone_part`, and whether it is registered when the program starts.
pub record Derived : Type 0 where
  pub tag : TagExpr
  pub params : List Param
  pub tags : Tags
  pub registers : Bool

-- The parameters get their bounds, and the lifetime of the deserializer where they are used with it.
unfoldable pub derived_of : List Param → Tags → TagExpr → Derived
unfolding bounded
derived_of params t tag =
    let ps : List Param = bounded t params in
    record {
      tag = tag;
      params = if not (is_empty ps) && t.has_shared then ps ++ lifetime "'de" ∷ [] else ps;
      tags = t;
      registers = t.has_shared && is_empty ps;
    }

module _ (syn : Syn) where
  open syn use {Tokens, parse_idents, parse_texts}

  -- `attr.path.get_ident()` and `attr.tokens`.
  pub record Attribute : Type 0 where
    pub path : Option String
    pub tokens : Tokens

  pub record DeriveInput : Type 0 where
    pub ident : String
    pub params : List Param
    pub attrs : List Attribute

  -- `Tags::parse`, unwrapped.
  unfoldable pub parse_tags : Tokens → Call Tags
  unfolding read_idents
  parse_tags ts = elim (parse_idents ts) [
    | none ↦ panics
    | some is ↦ returns (read_idents is no_tags)
  ]

  abbrev pub first_text : List String → Call String
  first_text [] = panics
  first_text (s ∷ ss) = returns s

  -- `TypeTag::parse`, unwrapped, with the unwrap of the first text.
  unfoldable pub parse_type_tag : Tokens → Call String
  parse_type_tag ts = elim (parse_texts ts) [ none ↦ panics | some ss ↦ first_text ss ]

  -- The arm of an attribute in `derive_message`, by its name.
  unfoldable pub read_named : String → Tokens → Said → Call Said
  unfolding parse_tags parse_type_tag add
  read_named i ts s =
      if i == "message"
      then and_then (parse_tags ts) (λ t. returns (record s { tags = add t s.tags }))
      else (if i == "type_tag"
          then and_then (parse_type_tag ts) (λ t. returns (record s { type_tag = some t }))
          else (if i == "namespace"
              then and_then (parse_type_tag ts) (λ t. returns (record s { namespace = some t }))
              else returns s))

  unfoldable pub read_path : Option String → Tokens → Said → Call Said
  unfolding read_named
  read_path none ts s = returns s
  read_path (some i) ts s = read_named i ts s

  -- The loop over the attributes.
  unfoldable pub read_attrs : List Attribute → Said → Call Said
  unfolding read_path
  read_attrs [] s = returns s
  read_attrs (a ∷ as') s = and_then (read_path a.path a.tokens s) (read_attrs as')

  unfoldable pub type_tag_part : DeriveInput → Option String → Option String → Call TagExpr
  unfolding base_name name_params tag_expr
  type_tag_part ast tt' ns =
      and_then (name_params ast.params (base_name ast.ident tt' ns) [] false)
        (λ r. returns (tag_expr r))

  unfoldable pub generate : DeriveInput → Said → Call Derived
  unfolding type_tag_part derived_of
  generate ast s =
      and_then (type_tag_part ast s.type_tag s.namespace)
        (λ t. returns (derived_of ast.params s.tags t))

  unfoldable pub derive_message : DeriveInput → Call Derived
  unfolding read_attrs generate
  derive_message ast = and_then (read_attrs ast.attrs nothing_said) (generate ast)

  -- The arm of an attribute in `derive_error`: `message` is not looked at.
  unfoldable pub read_error_named : String → Tokens → Said → Call Said
  unfolding parse_type_tag
  read_error_named i ts s =
      if i == "type_tag"
      then and_then (parse_type_tag ts) (λ t. returns (record s { type_tag = some t }))
      else (if i == "namespace"
          then and_then (parse_type_tag ts) (λ t. returns (record s { namespace = some t }))
          else returns s)

  unfoldable pub read_error_attrs : List Attribute → Said → Call Said
  unfolding read_error_named
  read_error_attrs [] s = returns s
  read_error_attrs (a ∷ as') s =
      and_then (elim a.path [ none ↦ returns s | some i ↦ read_error_named i a.tokens s ])
        (read_error_attrs as')

  unfoldable pub derive_error : DeriveInput → Call TagExpr
  unfolding read_error_attrs type_tag_part
  derive_error ast =
      and_then (read_error_attrs ast.attrs nothing_said)
        (λ s. type_tag_part ast s.type_tag s.namespace)

-- `as_shared_ref`, `as_shared_boxed` and `try_clone` of the generated `impl Message`.
module _ {M : Type 0} where
  unfoldable pub shared_ref : Bool → M → Option M
  shared_ref true m = some m
  shared_ref false m = none

  unfoldable pub shared_boxed : Bool → M → Result M M
  shared_boxed true m = ok m
  shared_boxed false m = err m

  unfoldable pub clone_of : Bool → (M → M) → M → Option M
  clone_of true clone m = some (clone m)
  clone_of false clone m = none

  -- `try_clone_into`: the slot is `none` where it is not one of this type.
  unfoldable pub clone_into : Bool → (M → M) → M → Option (Option M) → Bool × Option (Option M)
  clone_into true clone m none = (false, none)
  clone_into true clone m (some slot) = (true, some (some (clone m)))
  clone_into false clone m slot = (false, slot)
