-- ===== src/Vkex/Registry/Mark/Examples.antt =====
-- tools/vkex/reg.py: two types, of which one is defined with the other.
use teide.Base.{
  ◌≡◌, refl, ◌↔◌, ◌⊎◌, inl, inr, ℕ, true, false, [], ◌∷◌, none, some, All, arith, Bool-cases,
  if◌then◌else◌,
}
use teide.Base.Result.{ok}
use teide.Base.Text.{Text, text, text_eq, text_eq_iff}
use teide.Vkex.Registry.{Key, named, lookup_element_info, Dictionaries, Marks}
use teide.Vkex.Registry.Mark.{find_info, mark_type_required, type_references, enum_references}
use teide.Vkex.Registry.Mark.Closure.{mark_type_required_lem}
use teide.Vkex.Registry.Mark.Reaches.{Reaches, Falls, Below, all_references}
use teide.Vkex.Xml.{Element, element, nil, cons}

abbrev handle : Element
handle = element (text "type") ((text "name", text "VkHandle") ∷ []) none nil none

abbrev structure : Element
structure =
    element (text "type") ((text "name", text "VkStruct") ∷ []) none
      (cons
        (element (text "member") [] none
          (cons (element (text "type") [] (some (text "VkHandle")) nil none) nil) none)
        nil)
      none

abbrev dictionaries : Dictionaries
dictionaries = record {
  apiname = text "vulkan";
  require_command_aliases = false;
  typedict = (named (text "VkStruct"), structure) ∷ (named (text "VkHandle"), handle) ∷ [];
  enumdict = [];
  cmddict = [];
  groupdict = [];
}

abbrev nothing : Marks
nothing = record {
  types = λ k. false;
  enums = λ k. false;
  cmds = λ k. false;
  enums_elems = [];
  flag_type = λ k. none;
  successes = [];
  errors = [];
}

abbrev rank : Text → ℕ
rank name = if text_eq (text "VkStruct") name then 1 else 0

types_fall :
    (name : Text) (k : Key) (e : Element)
    → find_info dictionaries name dictionaries.typedict ≡ some (k, e)
    → All (Below rank (rank name)) (all_references dictionaries name e)
      × All (Below rank (rank name)) (enum_references dictionaries e)
unfolding lookup_element_info type_references text_eq
types_fall name k e found = elim (Bool-cases (text_eq (text "VkStruct") name)) [
  | inl here ↦
      let is = (text_eq_iff (text "VkStruct") name).0 here in
      let found' = rw (lookup_element_info, here) at found in
      let same : structure ≡ e = cc found' in
      rw (← same, ← is) (((text "VkHandle", refl, omega arith), tt), tt)
  | inr other ↦ elim (Bool-cases (text_eq (text "VkHandle") name)) [
    | inl here ↦
        let found' = rw (lookup_element_info, other, here) at found in
        let same : handle ≡ e = cc found' in rw (← same) (tt, tt)
    | inr none_ ↦ cc (rw (lookup_element_info, other, none_) at found)
  ]
]

fall : Falls dictionaries rank
unfolding lookup_element_info
fall = (types_fall, λ name k e found. cc (found))

mark_type_required_lem_example :
    (s' : Marks) × (mark_type_required dictionaries 2 true (some (text "VkStruct")) nothing ≡ ok s')
    × ((k : Key)
        → (s'.types k ≡ true) ↔ ((false ≡ true) ⊎ Reaches dictionaries (text "VkStruct") k))
unfolding text_eq
mark_type_required_lem_example =
    mark_type_required_lem dictionaries rank 2 (text "VkStruct") nothing fall (omega arith)
