-- ===== src/Vkex/Struct/Generate.antt =====
-- tools/vkex/vkexgenerator.py: `genStruct` as a whole, with what `OutputGenerator` does in it.
use teide.Base.{
  ℕ, ◌+◌, Bool, true, false, not, ◌&&◌, ◌||◌, List, [], ◌∷◌, ◌++◌, Option, none, some, keep, map,
  if◌then◌else◌,
}
use teide.Base.Result.{Result, ok, raised, ◌>>=◌}
use teide.Base.Text.{Text, text, text_eq, contains}
use teide.Vkex.Exceptions.{Exception, type_error, user_warning}
use teide.Vkex.Names.{convert_type_decl, convert_type_ref, gen_protect_string}
use teide.Vkex.Sections.{Feature, append_section}
use teide.Vkex.Struct.{
  StructType, trivial, straightforward, complex, start, broken_structs, scan_members,
}
use teide.Vkex.Struct.Body.{declare_members, map_text}
use teide.Vkex.Xml.{
  Element, Elements, element, nil, cons, get, has_tag, find_below, truthy, none_str,
}

-- `OutputGenerator.genStruct` takes the comments out of the members.
unfoldable mutual
  pub without_comments : Element → Element
  without_comments (element tag attrib body children tail) =
      element tag attrib body (tidy (text_eq tag (text "member")) children) tail

  pub tidy : Bool → Elements → Elements
  tidy in_member nil = nil
  tidy in_member (cons e es) =
      let rest = tidy in_member es in
      if in_member && has_tag (text "comment") e then rest else cons (without_comments e) rest

-- The element that `genStruct` is called with is not itself a member.
unfoldable pub drop_comments : Element → Element
unfolding without_comments
drop_comments (element tag attrib body children tail) =
    element tag attrib body (tidy false children) tail

-- The types of the registry.
abbrev pub Types : Type 0
Types = List (Text × Element)

abbrev parents_of : Types → List Text
parents_of [] = []
parents_of ((name, e) ∷ types) = elim (get e (text "parentstruct")) [
  | none ↦ parents_of types
  | some parent ↦ parent ∷ parents_of types
]

-- The names of the types that may be aliases.
unfoldable pub aliasing : Types → List Text
aliasing types =
    map (λ x. x.0) (keep (λ x. text_eq (none_str (get x.1 (text "mayalias"))) (text "true")) types)
    ++ parents_of types

-- The set is made when it is first asked for, and kept.
unfoldable pub type_may_alias : Types → List Text → Text → Bool × List Text
unfolding aliasing
type_may_alias types may_alias type_name =
    let known : List Text = elim may_alias [ [] ↦ aliasing types | n ∷ ns ↦ n ∷ ns ] in
    (contains known type_name, known)

pub record StructOptions : Type 0 where
  pub gen_struct_extends_comment : Bool
  pub gen_alias_macro : Bool
  pub alias_macro : Text

-- The members of the generator that `genStruct` changes.
pub record Generator : Type 0 where
  pub feature : Feature
  pub may_alias : List Text
  pub emitted_structs : List Text
  pub trivial_structs : ℕ
  pub straightforward_structs : ℕ
  pub complex_structs : ℕ

unfoldable pub count_struct : StructType → Generator → Generator
count_struct trivial g = record g { trivial_structs = g.trivial_structs + 1 }
count_struct straightforward g = record g {
  straightforward_structs = g.straightforward_structs + 1;
}
count_struct complex g = record g { complex_structs = g.complex_structs + 1 }

abbrev is_trivial : StructType → Bool
is_trivial trivial = true
is_trivial straightforward = false
is_trivial complex = false

abbrev commented : StructType → Text → Text
commented complex body = text "/*\n" ++ (body ++ text "*/\n")
commented straightforward body = body
commented trivial body = body

abbrev pub written : Text → Generator → Feature → Generator
written type_name counted feature = record counted {
  feature = feature;
  emitted_structs = counted.emitted_structs ++ (type_name ∷ []);
}

-- What is done with the finished text.
unfoldable pub finish_struct : Text → StructType → Text → Generator → Result Exception Generator
unfolding count_struct append_section
finish_struct type_name struct_type body g =
    let counted = count_struct struct_type g in
    if is_trivial struct_type
    then ok counted
    else (append_section g.feature (some (text "struct")) (commented struct_type body)
        >>= λ feature. ok (written type_name counted feature))

abbrev required : Option Text → Result Exception Text
required none = raised type_error
required (some s) = ok s

module _ (is_alnum : ℕ → Bool) (lower : ℕ → Text) (o : StructOptions) (types : Types) where
  abbrev pub extends_line : Text → Element → Text
  extends_line type_name e =
      if o.gen_struct_extends_comment && truthy (get e (text "structextends"))
      then text "// "
        ++ (type_name
            ++ (text " extends " ++ (none_str (get e (text "structextends")) ++ text "\n")))
      else []

  abbrev alias_part : Bool → Text
  alias_part may_alias = if o.gen_alias_macro && may_alias then text " " ++ o.alias_macro else []

  -- The text from the name of the category on.
  unfoldable pub struct_text : Text → Text → Bool → Element → Result Exception (StructType × Text)
  unfolding convert_type_decl convert_type_ref
  struct_text type_name front may_alias e = required (get e (text "category")) >>= λ category.
      scan_members type_name start (find_below (text "member") e) >>= λ s.
      declare_members is_alnum lower s.members (
        front
        ++ (category
            ++ (alias_part may_alias
                ++ (text " "
                    ++ (convert_type_decl type_name
                        ++ (text "\n{\n    using MappedType = "
                            ++ (convert_type_ref type_name ++ text ";\n\n")))))))
      >>= λ declared. map_text is_alnum lower s.members >>= λ conversion.
          ok (s.struct_type, declared ++ (text "\n" ++ (conversion ++ text "};\n")))

  abbrev pub asked_alias : Text → Generator → Bool × List Text
  asked_alias type_name g =
      if o.gen_alias_macro then type_may_alias types g.may_alias type_name else (false, g.may_alias)

  unfoldable pub generate_struct : Element → Text → Generator → Result Exception Generator
  unfolding struct_text finish_struct type_may_alias
  generate_struct e type_name g =
      let protect = gen_protect_string (get e (text "protect")) in
      let asked = asked_alias type_name g in
      struct_text type_name (protect.0 ++ extends_line type_name e) asked.0 e >>= λ r.
      finish_struct type_name r.0 (r.1 ++ protect.1) (record g { may_alias = asked.1 })

  -- `in_feature` tells whether a feature has been begun.
  unfoldable pub gen_struct :
      Bool → Element → Text → Option Text → Generator → Result Exception Generator
  unfolding generate_struct drop_comments
  gen_struct in_feature typeinfo type_name alias g =
      let generated = generate_struct (drop_comments typeinfo) type_name g in
      if not in_feature
      then raised user_warning
      else if truthy alias || contains broken_structs type_name
      then ok g
      else generated

  -- Only structures and unions have any text.
  unfoldable pub gen_type :
      Bool → Element → Text → Option Text → Generator → Result Exception Generator
  unfolding gen_struct
  gen_type in_feature typeinfo name alias g =
      let category = none_str (get typeinfo (text "category")) in
      if not in_feature
      then raised user_warning
      else if contains (text "struct" ∷ text "union" ∷ []) category
      then gen_struct in_feature typeinfo name alias g
      else ok g
