-- ===== src/Vkex/Registry/Passes/Examples.antt =====
-- tools/vkex/reg.py: a version that requires a type, and an extension that removes it.
use teide.Base.{
  ◌≡◌, refl, ◌↔◌, ◌⊎◌, inl, inr, ℕ, true, false, List, [], ◌∷◌, none, some, All, arith, Bool-cases,
}
use teide.Base.Result.{ok}
use teide.Base.Text.{Text, text, text_eq}
use teide.Vkex.Registry.{Key, named, lookup_element_info, Dictionaries, Marks}
use teide.Vkex.Registry.Mark.{find_info, type_references, enum_references}
use teide.Vkex.Registry.Mark.Commands.{CmdFalls}
use teide.Vkex.Registry.Mark.Reaches.{Falls, Below, all_references}
use teide.Vkex.Registry.Match.{match_api_profile}
use teide.Vkex.Registry.Passes.{
  Feature, Setting, is_required, is_removed_block, require_depends_satisfied, tag_features,
}
use teide.Vkex.Registry.Passes.Laws.{RequiredBy, RemovedBy, IsReady, tag_features_lem}
use teide.Vkex.Xml.{Element, element, nil, cons}

abbrev structure : Element
structure = element (text "type") ((text "name", text "VkStruct") ∷ []) none nil none

abbrev dictionaries : Dictionaries
dictionaries = record {
  apiname = text "vulkan";
  require_command_aliases = false;
  typedict = (named (text "VkStruct"), structure) ∷ [];
  enumdict = [];
  cmddict = [];
  groupdict = [];
}

abbrev nothing : Marks
nothing = record {
  types = λ k. false;
  enums = λ k. false;
  cmds = λ k. false;
  enums_elems = [];
  flag_type = λ k. none;
  successes = [];
  errors = [];
}

abbrev naming : Text → Text → Element
naming tag name =
    element tag [] none (cons (element (text "type") ((text "name", name) ∷ []) none nil none) nil)
      none

abbrev features : List Feature
features =
    record {
      elem =
          element (text "feature") [] none (cons (naming (text "require") (text "VkStruct")) nil)
            none;
      name = text "VK_1";
    }
    ∷ record {
      elem =
          element (text "extension") [] none (cons (naming (text "remove") (text "VkStruct")) nil)
            none;
      name = text "VK_A";
    }
    ∷ []

abbrev setting : Setting
setting = record {
  api = text "vulkan";
  profile = none;
  gen_features = text "VK_1" ∷ text "VK_A" ∷ [];
  removed_extension_names = [];
  evaluate = λ depends is_supported. ok (is_supported depends);
}

abbrev rank : Text → ℕ
rank name = 0

types_fall :
    (name : Text) (k : Key) (e : Element)
    → find_info dictionaries name dictionaries.typedict ≡ some (k, e)
    → All (Below rank (rank name)) (all_references dictionaries name e)
      × All (Below rank (rank name)) (enum_references dictionaries e)
unfolding lookup_element_info type_references text_eq
types_fall name k e found = elim (Bool-cases (text_eq (text "VkStruct") name)) [
  | inl here ↦
      let found' = rw (lookup_element_info, here) at found in
      let same : structure ≡ e = cc found' in rw (← same) (tt, tt)
  | inr none_ ↦ cc (rw (lookup_element_info, none_) at found)
]

fall : Falls dictionaries rank
unfolding lookup_element_info
fall = (types_fall, λ name k e found. cc found)

cmd_fall : CmdFalls dictionaries rank
unfolding lookup_element_info
cmd_fall = λ name k e found. cc found

required-IsReady : All (IsReady rank 1 (text "require") (is_required setting)) features
unfolding text_eq is_required match_api_profile require_depends_satisfied
required-IsReady =
    ((((true, refl), (((text "VkStruct", refl, omega arith), tt), tt, tt)), tt), (tt, tt))

removed-IsReady : All (IsReady rank 1 (text "remove") (is_removed_block setting)) features
unfolding text_eq match_api_profile
removed-IsReady =
    (tt, ((((true, refl), (((text "VkStruct", refl, omega arith), tt), tt, tt)), tt), tt))

tag_features_lem_example :
    (s' : Marks) × (tag_features dictionaries setting 1 features nothing ≡ ok s')
    × ((k : Key)
        → (s'.types k ≡ true) ↔ (
            ((false ≡ true) ⊎ RequiredBy dictionaries setting features k)
            × (RemovedBy dictionaries setting features k → ⊥)))
tag_features_lem_example =
    tag_features_lem dictionaries rank fall cmd_fall setting 1 features nothing required-IsReady
      removed-IsReady
