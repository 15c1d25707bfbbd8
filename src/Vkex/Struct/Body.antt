-- ===== src/Vkex/Struct/Body.antt =====
-- tools/vkex/vkexgenerator.py: the text of a structure, and what `genStruct` does with it.
use teide.Base.{ℕ, Bool, true, false, ◌&&◌, List, [], ◌∷◌, ◌++◌, Option, none, some, if◌then◌else◌}
use teide.Base.Result.{Result, ok, raised, ◌>>=◌}
use teide.Base.Strip.{strip}
use teide.Base.Text.{Text, text, text_eq, starts_with}
use teide.Vkex.Exceptions.{Exception, attribute_error, key_error, type_error}
use teide.Vkex.Names.{concat, convert_type_ref, remove_prefix, remove_pointer}
use teide.Vkex.Struct.{Member, Members, get_member}
use teide.Vkex.Xml.{Element, text_of, tail_of, children_of, has_tag, first_with, none_str}

-- What the code uses of the classes of characters: `str.isalnum` and `str.lower`.
module _ (is_alnum : ℕ → Bool) (lower : ℕ → Text) where
  abbrev glue : Text → Text → Text
  glue = concat is_alnum

  abbrev array_type : Text → Text → Text
  array_type prefix elem_type =
      text "Array<"
      ++ ((if text_eq elem_type (text "void") then text "std::byte" else elem_type)
          ++ (text ">" ++ (if starts_with prefix (text "const") then [] else text "*")))

  unfoldable pub element_str : Text → Element → Bool → Result Exception Text
  unfolding concat convert_type_ref remove_pointer remove_prefix
  element_str prefix e to_array =
      let body = strip (none_str (text_of e)) in
      let tail = strip (none_str (tail_of e)) in
      if has_tag (text "type") e
      then (let type_name = convert_type_ref body in
          if to_array
          then (remove_pointer (glue (glue prefix type_name) tail) >>= λ t.
              ok (array_type prefix t))
          else ok (glue (glue prefix type_name) tail))
      else if has_tag (text "name") e && to_array
      then (remove_prefix lower body (text "p") >>= λ n. ok (glue (glue prefix n) tail))
      else ok (glue (glue prefix body) tail)

  -- The loop over the elements of a member.
  unfoldable pub declare_elems : Bool → Text → List Element → Text → Result Exception Text
  unfolding element_str
  declare_elems to_array prefix [] body = ok body
  declare_elems to_array prefix (e ∷ es) body = element_str prefix e to_array >>= λ elem_str.
      declare_elems to_array [] es (glue body elem_str)

  -- A comment is written above its member and taken out of it.
  abbrev comment_lines : Option Element → Result Exception Text
  comment_lines none = ok []
  comment_lines (some c) = elim (text_of c) [
    | none ↦ raised type_error
    | some t ↦ ok (text "    /// " ++ (t ++ text "\n"))
  ]

  abbrev without_comment : List Element → List Element
  without_comment [] = []
  without_comment (e ∷ es) = if has_tag (text "comment") e then es else e ∷ without_comment es

  abbrev is_length : Member → Bool
  is_length m = elim m.length_of [ [] ↦ false | n ∷ ns ↦ true ]

  unfoldable pub declare_member : Member → Text → Result Exception Text
  unfolding declare_elems
  declare_member m body =
      let declared = comment_lines (first_with (text "comment") (children_of m.elem)) >>= λ lines.
      declare_elems m.is_array (strip (none_str (text_of m.elem)))
        (without_comment (children_of m.elem)) (body ++ (lines ++ text "    "))
      >>= λ whole. ok (whole ++ text " = {};\n") in
      if is_length m then ok body else declared

  unfoldable pub declare_members : Members → Text → Result Exception Text
  unfolding declare_member
  declare_members [] body = ok body
  declare_members ((name, m) ∷ members) body =
      declare_member m body >>= λ more. declare_members members more

  abbrev required : {A : Type 0} → Exception → Option A → Result Exception A
  required e none = raised e
  required e (some a) = ok a

  -- `members[name].isConst`
  unfoldable pub const_of : Members → Text → Result Exception Bool
  unfolding get_member
  const_of members name =
      required key_error (get_member members name) >>= λ m. required attribute_error m.is_const

  -- Two arrays of the same length are checked against each other, or made to fit.
  unfoldable pub equal_length : Members → Text → Text → Result Exception Text
  unfolding const_of remove_prefix
  equal_length members first m = remove_prefix lower first (text "p") >>= λ length_member.
      remove_prefix lower m (text "p") >>= λ equal_member. const_of members m >>= λ is_const. ok (
        if is_const
        then text "        VKEX_ASSERT("
          ++ (equal_member ++ (text ".size() == " ++ (length_member ++ text ".size());\n")))
        else text "        if ("
          ++ (equal_member
              ++ (text " && "
                  ++ (equal_member
                      ++ (text "->size() != "
                          ++ (length_member
                              ++ (text ".size())\n        {\n            "
                                  ++ (equal_member
                                      ++ (text "->reset("
                                          ++ (length_member
                                              ++ text ".size());\n        }\n"))))))))))

  unfoldable pub equal_lengths : Members → Text → List Text → Result Exception Text
  unfolding equal_length
  equal_lengths members first [] = ok []
  equal_lengths members first (m ∷ ms) = equal_length members first m >>= λ lines.
      equal_lengths members first ms >>= λ rest. ok (lines ++ rest)

  abbrev pub checks_of : Members → List Text → Result Exception Text
  checks_of members [] = ok []
  checks_of members (first ∷ others) = equal_lengths members first others

  unfoldable pub checks : Members → Members → Result Exception Text
  unfolding equal_lengths
  checks all_members [] = ok []
  checks all_members ((name, m) ∷ members) = checks_of all_members m.length_of >>= λ lines.
      checks all_members members >>= λ rest. ok (lines ++ rest)

  abbrev size_of : Text → Bool → Text
  size_of array is_const =
      if is_const
      then array ++ text ".size()"
      else array ++ (text " ? " ++ (array ++ text "->size() : 0"))

  abbrev pub elements_of : Text → Bool → Text
  elements_of array is_const =
      if is_const
      then array ++ text ".data()"
      else array ++ (text " ? " ++ (array ++ text "->data() : nullptr"))

  -- The value that a field of the mapped structure gets.
  unfoldable pub value_of : Members → Text → Member → Result Exception Text
  unfolding const_of remove_prefix
  value_of members name m = elim m.length_of [
    | first ∷ others ↦ remove_prefix lower first (text "p") >>= λ array.
        const_of members first >>= λ is_const. ok (size_of array is_const)
    | [] ↦
        (let of_array = remove_prefix lower name (text "p") >>= λ array.
        required attribute_error m.is_const >>= λ is_const. ok (elements_of array is_const) in
          if m.is_array then of_array else ok name)
  ]

  unfoldable pub assignments : Members → Members → Result Exception Text
  unfolding value_of
  assignments all_members [] = ok []
  assignments all_members ((name, m) ∷ members) = value_of all_members name m >>= λ value.
      assignments all_members members >>= λ rest.
      ok (text "        r." ++ (name ++ (text " = " ++ (value ++ (text ";\n" ++ rest)))))

  -- The conversion function.
  unfoldable pub map_text : Members → Result Exception Text
  unfolding checks assignments
  map_text members = checks members members >>= λ checked.
      assignments members members >>= λ assigned. ok (
        text "    MappedType map() const\n    {\n"
        ++ (checked
            ++ (text "        MappedType r;\n"
                ++ (assigned
                    ++ text
                        "        return r;\n    }\n\n    operator MappedType() const { return map(); }\n"))))
