-- ===== src/Vkex/Struct/Examples.antt =====
-- tools/vkex/vkexgenerator.py: a small structure.
use teide.Base.{
  ◌≡◌, refl, ℕ, Bool, true, false, ◌&&◌, ◌||◌, leb, ◌+◌, [], ◌∷◌, ◌++◌, Option, none, some,
  if◌then◌else◌,
}
use teide.Base.Result.{ok}
use teide.Base.Strip.{strip}
use teide.Base.Text.{Text, text, text_eq, starts_with}
use teide.Vkex.Names.{gen_protect_string}
use teide.Vkex.Sections.{begin_feature}
use teide.Vkex.Struct.{Scan, start, scan_members, straightforward}
use teide.Vkex.Struct.Body.{declare_members, map_text}
use teide.Vkex.Struct.Counts.{IsCounted, gen_type-IsCounted}
use teide.Vkex.Struct.Generate.{StructOptions, Generator, struct_text, gen_type}
use teide.Vkex.Struct.Total.{map_text_total}
use teide.Vkex.Xml.{Element, element, nil, cons, find_below}

abbrev ascii_alnum : ℕ → Bool
ascii_alnum c =
    (leb b'0' c && leb c b'9') || ((leb b'A' c && leb c b'Z') || (leb b'a' c && leb c b'z'))

abbrev ascii_lower : ℕ → Text
ascii_lower c = (if leb b'A' c && leb c b'Z' then c + 32 else c) ∷ []

abbrev plain : Text → Text → Option Text → Element
plain tag body tail = element tag [] (some body) nil tail

abbrev structure : Element
structure =
    element (text "type") ((text "category", text "struct") ∷ []) none
      (cons
        (element (text "member") [] none
          (cons (plain (text "type") (text "uint32_t") (some (text " "))) (
            cons (plain (text "name") (text "count") none)
              (cons (plain (text "comment") (text "ignored") none) nil)))
          none)
        (cons
          (element (text "member") ((text "len", text "count") ∷ []) (some (text "const "))
            (cons (plain (text "type") (text "float") (some (text "* ")))
              (cons (plain (text "name") (text "pValues") none) nil))
            none)
          nil))
      none

abbrev options : StructOptions
options = record { gen_struct_extends_comment = true; gen_alias_macro = false; alias_macro = [] }

abbrev expected : Text
expected =
    text "struct Values\n{\n    using MappedType = vk::Values;\n\n    Array<float> values = {};\n\n"
    ++ (text
          "    MappedType map() const\n    {\n        MappedType r;\n        r.count = values.size();\n"
        ++ text
            "        r.pValues = values.data();\n        return r;\n    }\n\n    operator MappedType() const { return map(); }\n};\n")

generated :
    struct_text ascii_alnum ascii_lower options [] (text "VkValues") [] false structure
    ≡ ok (straightforward, expected)
unfolding struct_text text_eq scan_members declare_members starts_with strip map_text
generated = refl

abbrev fresh : Generator
fresh = record {
  feature = begin_feature;
  may_alias = [];
  emitted_structs = [];
  trivial_structs = 0;
  straightforward_structs = 0;
  complex_structs = 0;
}

abbrev after : Generator
after = record {
  feature = record {
    sections =
        (text "include", [])
        ∷ (text "define", [])
        ∷ (text "basetype", [])
        ∷ (text "handle", [])
        ∷ (text "enum", [])
        ∷ (text "group", [])
        ∷ (text "bitmask", [])
        ∷ (text "funcpointer", [])
        ∷ (text "struct", expected ∷ [])
        ∷ (text "commandPointer", [])
        ∷ (text "command", [])
        ∷ [];
    feature_not_empty = true;
  };
  may_alias = [];
  emitted_structs = text "VkValues" ∷ [];
  trivial_structs = 0;
  straightforward_structs = 1;
  complex_structs = 0;
}

emitted :
    gen_type ascii_alnum ascii_lower options [] true structure (text "VkValues") none fresh
    ≡ ok after
unfolding gen_type begin_feature text_eq scan_members declare_members starts_with strip map_text
    gen_protect_string
emitted = refl

gen_type-IsCounted_example : IsCounted after
gen_type-IsCounted_example =
    gen_type-IsCounted ascii_alnum ascii_lower options [] true structure (text "VkValues") none
      fresh after emitted refl

abbrev scanned : Scan
scanned = record {
  members =
      (
        text "count",
        record {
          elem =
              element (text "member") [] none
                (cons (plain (text "type") (text "uint32_t") (some (text " "))) (
                  cons (plain (text "name") (text "count") none)
                    (cons (plain (text "comment") (text "ignored") none) nil)))
                none;
          length_of = text "pValues" ∷ [];
          is_array = false;
          is_const = none;
        },
      )
      ∷ (
        text "pValues",
        record {
          elem =
              element (text "member") ((text "len", text "count") ∷ []) (some (text "const "))
                (cons (plain (text "type") (text "float") (some (text "* ")))
                  (cons (plain (text "name") (text "pValues") none) nil))
                none;
          length_of = [];
          is_array = true;
          is_const = some true;
        },
      )
      ∷ [];
  struct_type = straightforward;
}

scanned_lem :
    scan_members (text "VkValues") start (find_below (text "member") structure) ≡ ok scanned
unfolding scan_members text_eq starts_with strip
scanned_lem = refl

map_text_total_example :
    (body : Text) × (map_text ascii_alnum ascii_lower scanned.members ≡ ok body)
unfolding text_eq
map_text_total_example =
    map_text_total ascii_alnum ascii_lower (text "VkValues") (find_below (text "member") structure)
      scanned refl scanned_lem refl
