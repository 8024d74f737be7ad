-- ===== src/Derive/Flags.antt =====
-- What the attributes of a type make of it (crates/derive/src/lib.rs, `derive_message`).
use messagebus.Base.{
  ◌≡◌, refl, sym, ap, subst, ◌∙◌, ◌⊎◌, inl, inr, String, Bool, true, false, not, ◌&&◌, ◌||◌, Option,
  none, some, List, [], ◌∷◌, arith, Bool-cases, ◌==◌, String-eq, if◌then◌else◌,
}
use messagebus.Message.{returns, panics}
use messagebus.Derive.{
  base_name, tag_expr, Param, lifetime, type_param, const_param, TagExpr, Syn, Tags, no_tags, add,
  read_idents, Said, nothing_said, Attribute, DeriveInput, parse_tags, parse_type_tag, and_then,
  read_named, read_path, read_attrs, type_tag_part, bounded, is_empty, Derived, derived_of,
  generate, derive_message,
}
use messagebus.Derive.TagText.{
  has_const, named, type_idents, type_tag_part_const, type_tag_part_returns,
}

abbrev pub mentions : String → List String → Bool
mentions word [] = false
mentions word (i ∷ is) = i == word || mentions word is

-- `shared` and `clone` are told apart.
read_idents_lem :
    (is : List String) (t : Tags)
    → read_idents is t ≡ record {
      has_clone = t.has_clone || mentions "clone" is;
      has_shared = t.has_shared || mentions "shared" is;
    }
unfolding read_idents
read_idents_lem [] t = ground arith
read_idents_lem (i ∷ is) t = elim (Bool-cases (i == "shared")) [
  | inl shared ↦
      let e = (String-eq.beq_iff i "shared").0 shared in
      rw e (read_idents_lem is (record t { has_shared = true }) ∙ ground arith)
  | inr other ↦ elim (Bool-cases (i == "clone")) [
    | inl clone ↦
        let e = (String-eq.beq_iff i "clone").0 clone in
        rw e (read_idents_lem is (record t { has_clone = true }) ∙ ground arith)
    | inr neither ↦ rw (other, neither) (read_idents_lem is t)
  ]
]

module _ (syn : Syn) where
  open syn use {Tokens, parse_idents, parse_texts}

  abbrev pub has_first : Option (List String) → Bool
  has_first none = false
  has_first (some []) = false
  has_first (some (s ∷ ss)) = true

  abbrev pub is_some : Option (List String) → Bool
  is_some none = false
  is_some (some is) = true

  -- The attribute can be read: `message` holds identifiers, `type_tag` and `namespace` hold a text.
  abbrev pub is_readable : Option String → Tokens → Bool
  is_readable none ts = true
  is_readable (some i) ts =
      if i == "message"
      then is_some (parse_idents ts)
      else (if i == "type_tag" || i == "namespace" then has_first (parse_texts ts) else true)

  abbrev pub all_readable : List (Attribute syn) → Bool
  all_readable [] = true
  all_readable (a ∷ as') = is_readable a.path a.tokens && all_readable as'

  abbrev pub idents : Option (List String) → List String
  idents none = []
  idents (some is) = is

  abbrev pub flags_at : String → Option String → Tokens → Bool
  flags_at word none ts = false
  flags_at word (some i) ts = i == "message" && mentions word (idents (parse_idents ts))

  -- Some attribute `message` has the word.
  abbrev pub flags : String → List (Attribute syn) → Bool
  flags word [] = false
  flags word (a ∷ as') = flags_at word a.path a.tokens || flags word as'

  abbrev pub texts : Option (List String) → Option String → Option String
  texts none o = o
  texts (some []) o = o
  texts (some (s ∷ ss)) o = some s

  abbrev pub text_at : String → Option String → Tokens → Option String → Option String
  text_at key none ts o = o
  text_at key (some i) ts o = if i == key then texts (parse_texts ts) o else o

  -- The text of the last attribute of that name.
  abbrev pub last_text : String → List (Attribute syn) → Option String → Option String
  last_text key [] o = o
  last_text key (a ∷ as') o = last_text key as' (text_at key a.path a.tokens o)

  -- What is known after some attributes.
  abbrev after : Option String → Tokens → Said → Said
  after path ts s = record {
    tags = record {
      has_clone = s.tags.has_clone || flags_at "clone" path ts;
      has_shared = s.tags.has_shared || flags_at "shared" path ts;
    };
    type_tag = text_at "type_tag" path ts s.type_tag;
    namespace = text_at "namespace" path ts s.namespace;
  }

  message-read :
      (ts : Tokens) (s : Said) (o : Option (List String))
      → parse_idents ts ≡ o
      → and_then (parse_tags syn ts) (λ t. returns (record s { tags = add t s.tags })) ≡ (
          if is_some o
          then returns (record s {
            tags = record {
              has_clone = s.tags.has_clone || mentions "clone" (idents o);
              has_shared = s.tags.has_shared || mentions "shared" (idents o);
            };
          })
          else panics)
  unfolding parse_tags add
  message-read ts s none e = rw (e, and_then) refl
  message-read ts s (some is) e =
      rw (e, and_then)
        (ap (λ t. returns (record s { tags = add t s.tags })) (read_idents_lem is no_tags))

  -- `f` puts a text into a field that held `old`.
  text-read :
      (ts : Tokens) (f : Option String → Said) (old : Option String) (o : Option (List String))
      → parse_texts ts ≡ o
      → and_then (parse_type_tag syn ts) (λ t. returns (f (some t)))
        ≡ (if has_first o then returns (f (texts o old)) else panics)
  unfolding parse_type_tag
  text-read ts f old none e = rw (e, and_then) refl
  text-read ts f old (some []) e = rw (e, and_then) refl
  text-read ts f old (some (t ∷ ss)) e = rw (e, and_then) refl

  -- What one attribute does, by its name.
  abbrev Reads : String → Tokens → Said → Type 0
  Reads i ts s =
      read_named syn i ts s
      ≡ (if is_readable (some i) ts then returns (after (some i) ts s) else panics)

  read_named_lem : (i : String) (ts : Tokens) (s : Said) → Reads i ts s
  unfolding read_named
  read_named_lem i ts s = elim (Bool-cases (i == "message")) [
    | inl e ↦
        subst (λ j. Reads j ts s) (sym ((String-eq.beq_iff i "message").0 e))
          (message-read ts s (parse_idents ts) refl)
    | inr not_message ↦ elim (Bool-cases (i == "type_tag")) [
      | inl e ↦
          subst (λ j. Reads j ts s) (sym ((String-eq.beq_iff i "type_tag").0 e))
            (text-read ts (λ t. record s { type_tag = t }) s.type_tag (parse_texts ts) refl
              ∙ ground arith)
      | inr not_tag ↦ elim (Bool-cases (i == "namespace")) [
        | inl e ↦
            subst (λ j. Reads j ts s) (sym ((String-eq.beq_iff i "namespace").0 e))
              (text-read ts (λ t. record s { namespace = t }) s.namespace (parse_texts ts) refl
                ∙ ground arith)
        | inr other ↦ rw (not_message, not_tag, other) (ground arith)
      ]
    ]
  ]

  read_path_lem :
      (path : Option String) (ts : Tokens) (s : Said)
      → read_path syn path ts s
        ≡ (if is_readable path ts then returns (after path ts s) else panics)
  unfolding read_path
  read_path_lem none ts s = ground arith
  read_path_lem (some i) ts s = read_named_lem i ts s

  -- What is known after all attributes.
  abbrev pub all_said : List (Attribute syn) → Said → Said
  all_said as' s = record {
    tags = record {
      has_clone = s.tags.has_clone || flags "clone" as';
      has_shared = s.tags.has_shared || flags "shared" as';
    };
    type_tag = last_text "type_tag" as' s.type_tag;
    namespace = last_text "namespace" as' s.namespace;
  }

  read_attrs_lem :
      (as' : List (Attribute syn)) (s : Said)
      → read_attrs syn as' s ≡ (if all_readable as' then returns (all_said as' s) else panics)
  unfolding read_attrs
  read_attrs_lem [] s = ground arith
  read_attrs_lem (a ∷ as') s = elim (Bool-cases (is_readable a.path a.tokens)) [
    | inl good ↦
        rw (read_path_lem a.path a.tokens s, good)
          (read_attrs_lem as' (after a.path a.tokens s) ∙ ground arith)
    | inr bad ↦ rw (read_path_lem a.path a.tokens s, bad) refl
  ]

  is_empty-bounded : (t : Tags) (ps : List Param) → is_empty (bounded t ps) ≡ is_empty ps
  unfolding bounded
  is_empty-bounded t [] = refl
  is_empty-bounded t (lifetime l ∷ ps) = refl
  is_empty-bounded t (type_param i bounds ∷ ps) = refl
  is_empty-bounded t (const_param c ∷ ps) = refl

  -- The input is one that the macro can do with.
  abbrev pub is_fine : DeriveInput syn → Bool
  is_fine ast = all_readable ast.attrs && not (has_const ast.params)

  registers-derived_of :
      (ps : List Param) (t : Tags) (e : TagExpr)
      → (derived_of ps t e).registers ≡ (t.has_shared && is_empty ps)
  unfolding derived_of
  registers-derived_of ps t e = ap (λ b. t.has_shared && b) (is_empty-bounded t ps)

  -- `derive(Message)` panics exactly where an attribute `message` does not hold identifiers, an attribute
  -- `type_tag` or `namespace` holds no text, or the type has a const parameter. Otherwise the message is
  -- cloneable, and shared, if some attribute `message` says so, whichever it is; its tag is made with the
  -- last `type_tag` and the last `namespace`; and it is registered when the program starts if it is shared
  -- and has no parameters at all, not even a lifetime.
  pub derive_message_lem :
      (ast : DeriveInput syn)
      → ((is_fine ast ≡ false) × (derive_message syn ast ≡ panics))
        ⊎ ((is_fine ast ≡ true)
            × ((d : Derived) × (derive_message syn ast ≡ returns d)
                × (d.tags.has_clone ≡ flags "clone" ast.attrs)
                × (d.tags.has_shared ≡ flags "shared" ast.attrs)
                × (type_tag_part syn ast
                      (last_text "type_tag" ast.attrs none)
                      (last_text "namespace" ast.attrs none)
                    ≡ returns d.tag)
                × (d.registers ≡ (flags "shared" ast.attrs && is_empty ast.params))))
  unfolding derive_message generate derived_of
  derive_message_lem ast =
      let read = read_attrs_lem ast.attrs nothing_said in
      let s : Said = all_said ast.attrs nothing_said in
      elim (Bool-cases (all_readable ast.attrs)) [
        | inr bad ↦ inl (ground arith, rw (read, bad) refl)
        | inl good ↦ elim (Bool-cases (has_const ast.params)) [
          | inl const ↦ inl (
            ground arith,
            rw (read, good, type_tag_part_const syn ast s.type_tag s.namespace const) refl,
          )
          | inr free ↦
              let e : TagExpr =
                tag_expr (
                  named (base_name ast.ident s.type_tag s.namespace) [] (type_idents ast.params)) in
              inr (
                ground arith,
                (
                  derived_of ast.params s.tags e,
                  rw (read, good, type_tag_part_returns syn ast s.type_tag s.namespace free) refl,
                  refl,
                  refl,
                  type_tag_part_returns syn ast s.type_tag s.namespace free,
                  registers-derived_of ast.params s.tags e,
                ),
              )
        ]
      ]
