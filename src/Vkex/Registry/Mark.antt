-- ===== src/Vkex/Registry/Mark.antt =====
-- tools/vkex/reg.py: marking what a feature requires or removes.
pub mod Reaches
pub mod Growth
pub mod Enums
pub mod Closure
pub mod Commands
mod Examples
use teide.Base.{
  ◌≡◌, ℕ, zero, suc, Bool, true, false, not, ◌&&◌, ◌||◌, List, [], ◌∷◌, ◌++◌, Option, none, some,
  keep, map, if◌then◌else◌,
}
use teide.Base.Result.{Result, ok, raised, ◌>>=◌}
use teide.Base.Strip.{split}
use teide.Base.Text.{Text, text, text_eq}
use teide.Vkex.Exceptions.{Exception, recursion_error, type_error}
use teide.Vkex.Registry.{
  Key, named, Dictionary, dict_get, lookup_element_info, Dictionaries, Marks, CommandExtension,
  set_flag,
}
use teide.Vkex.Xml.{
  Element, Elements, element, nil, cons, text_of, children_of, get, has_tag, find_below, truthy,
}

abbrev pub Step : Type 0
Step = Marks → Result Exception Marks

abbrev pub mark_list : {A : Type 0} → (A → Step) → List A → Step
mark_list mark [] s = ok s
mark_list mark (a ∷ as_) s = mark a s >>= λ s'. mark_list mark as_ s'

-- An attribute that names something.
abbrev pub reference : Element → Text → List (Option Text)
reference e key = let value = get e key in if truthy value then value ∷ [] else []

-- `findall(tag)`, among the children, and the attribute `name` of each.
abbrev pub names_in : Text → Element → List (Option Text)
names_in tag e = map (λ c. get c (text "name")) (keep (has_tag tag) (children_of e))

abbrev pub same_name : Option Text → Option Text → Bool
same_name none none = true
same_name none (some n) = false
same_name (some n) none = false
same_name (some n) (some m) = text_eq n m

abbrev is_enum : Option Text → Element → Bool
is_enum name e = has_tag (text "enum") e && same_name (get e (text "name")) name

-- `gi.elem.remove(gienum)`, of the first such element.
unfoldable pub without_first : Option Text → Elements → Elements
without_first name nil = nil
without_first name (cons e es) =
    let rest = without_first name es in if is_enum name e then es else cons e rest

unfoldable pub without_all : Option Text → Elements → Elements
without_all name nil = nil
without_all name (cons e es) =
    let rest = without_all name es in if is_enum name e then rest else cons e rest

abbrev with_children : (Elements → Elements) → Element → Element
with_children f (element tag attrib body children tail) = element tag attrib body (f children) tail

abbrev change_at : {A : Type 0} → ℕ → (A → A) → List A → List A
change_at i f [] = []
change_at zero f (x ∷ xs) = f x ∷ xs
change_at (suc i) f (x ∷ xs) = x ∷ change_at i f xs

module _ (d : Dictionaries) where
  abbrev pub find_info : {A : Type 0} → Text → Dictionary A → Option (Key × A)
  find_info name dictionary = lookup_element_info d.apiname name dictionary

  -- An enum that is removed from the elements that the generators traverse.
  unfoldable pub remove_enum : Text → Element → Marks → Marks
  unfolding without_first without_all
  remove_enum enumname e s = elim (get e (text "extends")) [
    | some group_name ↦ elim (dict_get d.groupdict (named group_name)) [
      | some i ↦ record s {
        enums_elems = change_at i (with_children (without_first (some enumname))) s.enums_elems;
      }
      | none ↦ s
    ]
    | none ↦ record s {
      enums_elems = map (with_children (without_all (get e (text "name")))) s.enums_elems;
    }
  ]

  -- The number is the depth that recursion may reach.
  unfoldable pub mark_enum_required : ℕ → Bool → Option Text → Step
  unfolding remove_enum
  mark_enum_required zero required name s = raised recursion_error
  mark_enum_required (suc depth) required none s = ok s
  mark_enum_required (suc depth) required (some enumname) s = elim (find_info enumname d.enumdict) [
    | none ↦ ok s
    | some (k, e) ↦
        let s1 = if not required && s.enums k then remove_enum enumname e s else s in
        mark_list (mark_enum_required depth required) (reference e (text "alias"))
          (record s1 { enums = set_flag s1.enums k required })
  ]

  abbrev is_other : Text → Option Text → Bool
  is_other typename none = true
  is_other typename (some t) = not (text_eq typename t)

  -- The types that a type refers to by attributes, and those it is defined with.
  unfoldable pub type_references : Text → Element → List (Option Text)
  type_references typename e = keep (is_other typename) (
      reference e (text "requires")
      ++ (reference e (text "alias") ++ map text_of (find_below (text "type") e)))

  abbrev pub enum_references : Element → List (Option Text)
  enum_references e = map text_of (find_below (text "enum") e)

  abbrev bitvalues : Element → List (Option Text)
  bitvalues e = reference e (text "bitvalues")

  -- The type of a group of bits is this type of flags.
  unfoldable pub set_flag_type : Key → List (Option Text) → Marks → Marks
  set_flag_type k ((some dep) ∷ []) s = elim (find_info dep d.groupdict) [
    | none ↦ s
    | some (g, i) ↦ record s { flag_type = set_flag s.flag_type g (some k) }
  ]
  set_flag_type k deps s = s

  unfoldable pub require_dependencies :
      (Option Text → Step) → (Option Text → Step) → Text → Key → Element → Step
  unfolding type_references set_flag_type
  require_dependencies mark_type mark_enum typename k e s =
      mark_list mark_type (type_references typename e) s >>= λ s1.
      mark_list mark_enum (enum_references e) s1 >>= λ s2.
      mark_list mark_type (bitvalues e) s2 >>= λ s3. ok (set_flag_type k (bitvalues e) s3)

  -- `in` does not take `None` for a text.
  unfoldable pub mark_type_required : ℕ → Bool → Option Text → Step
  unfolding require_dependencies mark_enum_required
  mark_type_required zero required name s = raised recursion_error
  mark_type_required (suc depth) required none s = raised type_error
  mark_type_required (suc depth) required (some typename) s = elim (find_info typename d.typedict) [
    | none ↦ ok s
    | some (k, e) ↦
        (let found =
            require_dependencies (mark_type_required depth true) (mark_enum_required depth true)
              typename k e s in
          (if required then found else ok s) >>= λ s'.
          ok (record s' { types = set_flag s'.types k required }))
  ]

  unfoldable pub mark_cmd_required : ℕ → Bool → Option Text → Step
  unfolding mark_type_required
  mark_cmd_required zero required name s = raised recursion_error
  mark_cmd_required (suc depth) required none s = ok s
  mark_cmd_required (suc depth) required (some cmdname) s = elim (find_info cmdname d.cmddict) [
    | none ↦ ok s
    | some (k, e) ↦
        (let marked : Marks = record s { cmds = set_flag s.cmds k required } in
          let aliases = if d.require_command_aliases then reference e (text "alias") else [] in
          let types = if required then map text_of (find_below (text "type") e) else [] in
          mark_list (mark_cmd_required depth required) aliases marked >>= λ s'.
          mark_list (mark_type_required depth true) types s')
  ]

  abbrev codes : Text → Option Text → Option Text → List CommandExtension
  codes featurename command none = []
  codes featurename command (some values) =
      map (λ v. record { command = command; value = v; extension = featurename })
        (split b',' values)

  unfoldable pub extend_command : Text → Element → Step
  unfolding split
  extend_command featurename e s =
      let command = get e (text "name") in
      if same_name (get e (text "type")) (some (text "command"))
      then ok (record s {
        successes = s.successes ++ codes featurename command (get e (text "successcodes"));
        errors = s.errors ++ codes featurename command (get e (text "errorcodes"));
      })
      else ok s

  -- A `<require>` or `<remove>` element of a feature.
  unfoldable pub mark_required : ℕ → Text → Bool → Element → Step
  unfolding mark_cmd_required extend_command
  mark_required depth featurename required feature s =
      mark_list (mark_type_required depth required) (names_in (text "type") feature) s >>= λ s1.
      mark_list (mark_enum_required depth required) (names_in (text "enum") feature) s1 >>= λ s2.
      mark_list (mark_cmd_required depth required) (names_in (text "command") feature) s2 >>= λ s3.
      mark_list (extend_command featurename) (keep (has_tag (text "extend")) (children_of feature))
        s3
