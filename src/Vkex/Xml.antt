-- ===== src/Vkex/Xml.antt =====
-- The elements of `xml.etree.ElementTree` that the registry is read into, and their methods.
use teide.Base.{Bool, true, false, List, [], ◌∷◌, ◌++◌, Option, none, some, keep, if◌then◌else◌}
use teide.Base.Text.{Text, text_eq}

abbrev pub Attributes : Type 0
Attributes = List (Text × Text)

mutual
  pub data Element : Type 0 where
    element : Text → Attributes → Option Text → Elements → Option Text → Element

  pub data Elements : Type 0 where
    nil : Elements
    cons : Element → Elements → Elements

abbrev pub tag_of : Element → Text
tag_of (element tag attrib body children tail) = tag

abbrev pub attrib_of : Element → Attributes
attrib_of (element tag attrib body children tail) = attrib

abbrev pub text_of : Element → Option Text
text_of (element tag attrib body children tail) = body

abbrev pub tail_of : Element → Option Text
tail_of (element tag attrib body children tail) = tail

abbrev pub to_list : Elements → List Element
to_list nil = []
to_list (cons e es) = e ∷ to_list es

abbrev pub children_of : Element → List Element
children_of (element tag attrib body children tail) = to_list children

-- `dict.get`
abbrev pub get_attribute : Attributes → Text → Option Text
get_attribute [] key = none
get_attribute ((other, value) ∷ attrib) key =
    if text_eq other key then some value else get_attribute attrib key

-- `elem.get(key)`
abbrev pub get : Element → Text → Option Text
get e key = get_attribute (attrib_of e) key

abbrev pub has_tag : Text → Element → Bool
has_tag tag e = text_eq (tag_of e) tag

-- `elem.find(tag)`, among the children
abbrev pub first_with : Text → List Element → Option Element
first_with tag [] = none
first_with tag (e ∷ es) = if has_tag tag e then some e else first_with tag es

-- All elements below one, in the order of the document.
abbrev mutual
  pub below : Element → List Element
  below (element tag attrib body children tail) = all_below children

  pub all_below : Elements → List Element
  all_below nil = []
  all_below (cons e es) = e ∷ (below e ++ all_below es)

-- `elem.findall('.//' + tag)`
abbrev pub find_below : Text → Element → List Element
find_below tag e = keep (has_tag tag) (below e)

-- An attribute that is there and not empty.
abbrev pub truthy : Option Text → Bool
truthy none = false
truthy (some []) = false
truthy (some (c ∷ s)) = true

-- `noneStr(s)`
abbrev pub none_str : Option Text → Text
none_str none = []
none_str (some s) = s
