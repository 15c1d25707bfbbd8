-- ===== src/Vkex/Struct.antt =====
-- tools/vkex/vkexgenerator.py: the members of a structure, as `genStruct` classifies them.
pub mod Body
pub mod Members
pub mod Links
pub mod Total
pub mod Generate
pub mod Counts
mod Examples
use teide.Base.{
  ◌≡◌, ℕ, Bool, true, false, not, ◌&&◌, ◌||◌, List, [], ◌∷◌, ◌++◌, Option, none, some,
  if◌then◌else◌,
}
use teide.Base.Result.{Result, ok, raised, ◌>>=◌}
use teide.Base.Strip.{strip, split}
use teide.Base.Text.{Text, text, text_eq, starts_with, contains}
use teide.GenFilelists.Listing.{has}
use teide.Vkex.Exceptions.{Exception, attribute_error}
use teide.Vkex.Xml.{
  Element, Elements, element, nil, cons, tag_of, text_of, tail_of, children_of, get, first_with,
  find_below, truthy, none_str,
}

-- A member; `is_const` is an attribute that only some members get.
pub record Member : Type 0 where
  pub elem : Element
  pub length_of : List Text
  pub is_array : Bool
  pub is_const : Option Bool

abbrev pub new_member : Element → Member
new_member e = record { elem = e; length_of = []; is_array = false; is_const = none }

-- A dictionary by name, in the order in which the names were first set.
abbrev pub Members : Type 0
Members = List (Text × Member)

unfoldable pub get_member : Members → Text → Option Member
get_member [] name = none
get_member ((other, m) ∷ members) name =
    if text_eq other name then some m else get_member members name

unfoldable pub set_member : Members → Text → Member → Members
set_member [] name m = (name, m) ∷ []
set_member ((other, old) ∷ members) name m =
    if text_eq other name then (other, m) ∷ members else (other, old) ∷ set_member members name m

-- `members[name].… = …`, of a member that is there.
unfoldable pub change_member : Members → Text → (Member → Member) → Members
change_member [] name f = []
change_member ((other, m) ∷ members) name f =
    if text_eq other name then (other, f m) ∷ members else (other, m) ∷ change_member members name f

pub data StructType : Type 0 where
  trivial : StructType
  straightforward : StructType
  complex : StructType

-- The variables of the loop over the members.
pub record Scan : Type 0 where
  pub members : Members
  pub struct_type : StructType

-- What they are before the loop.
abbrev pub start : Scan
start = record { members = []; struct_type = trivial }

abbrev pub auto_generateable : List Text
auto_generateable = text "VkBufferCreateInfo" ∷ text "VkRenderPassBeginInfo" ∷ []

abbrev pub broken_structs : List Text
broken_structs =
    text "VkVideoDecodeH265PictureInfoKHR"
    ∷ text "VkCudaModuleCreateInfoNV"
    ∷ text "VkSwapchainTimeDomainPropertiesEXT"
    ∷ []

abbrev pub null_terminated : Text
null_terminated = text "null-terminated"

abbrev only_length : Text → List Text → Text
only_length length (first ∷ second ∷ []) = if text_eq second null_terminated then first else length
only_length length parts = length

-- The length of an array of texts with ends is that of the array.
unfoldable pub array_length : Text → Text
unfolding split
array_length length = if has b',' length then only_length length (split b',' length) else length

abbrev raised_type : StructType → StructType
raised_type trivial = straightforward
raised_type straightforward = straightforward
raised_type complex = complex

-- `members[name].isArray = True` and `members[name].isConst = isConst`
abbrev pub as_array : Bool → Member → Member
as_array is_const m = record m { is_array = true; is_const = some is_const }

abbrev pub with_length_of : Text → Member → Member
with_length_of name m = record m { length_of = m.length_of ++ (name ∷ []) }

-- A member that has a length, after it was added.
unfoldable pub link_array : Bool → Text → Text → Scan → Scan
unfolding change_member get_member
link_array is_const name length s = elim (get_member s.members length) [
  | some m ↦ record {
    members =
        change_member (change_member s.members length (with_length_of name)) name
          (as_array is_const);
    struct_type = raised_type s.struct_type;
  }
  | none ↦ if text_eq length null_terminated then s else record s { struct_type = complex }
]

abbrev pub make_complex : Bool → Scan → Scan
make_complex b s = if b then record s { struct_type = complex } else s

-- Where the member's declaration is an array of C, or its attribute `len` gives its length.
unfoldable pub scan_length : Text → Element → Element → Text → Scan → Scan
unfolding link_array array_length
scan_length type_name e name_elem name s =
    if starts_with (none_str (tail_of name_elem)) (text "[")
    then record s { struct_type = complex }
    else if truthy (get e (text "len"))
    then link_array (starts_with (strip (none_str (text_of e))) (text "const")) name
        (array_length (none_str (get e (text "len"))))
        (make_complex
          (truthy (get e (text "noautovalidity")) && not (contains auto_generateable type_name)) s)
    else s

-- One round of the loop. The element `name` of a member has a text.
unfoldable pub scan_member : Text → Scan → Element → Result Exception Scan
unfolding scan_length set_member
scan_member type_name s e = elim (first_with (text "name") (children_of e)) [
  | none ↦ raised attribute_error
  | some name_elem ↦
      let name = none_str (text_of name_elem) in
      if truthy (get e (text "deprecated")) || contains (text "sType" ∷ text "pNext" ∷ []) name
      then ok s
      else ok (
          scan_length type_name e name_elem name (
            make_complex (truthy (get e (text "altlen")))
              (record s { members = set_member s.members name (new_member e) })))
]

unfoldable pub scan_members : Text → Scan → List Element → Result Exception Scan
unfolding scan_member
scan_members type_name s [] = ok s
scan_members type_name s (e ∷ es) = scan_member type_name s e >>= λ s'. scan_members type_name s' es
