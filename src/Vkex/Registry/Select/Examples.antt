-- ===== src/Vkex/Registry/Select/Examples.antt =====
-- tools/vkex/reg.py: the selection for two versions and two extensions.
use teide.Base.{◌≡◌, refl, ℕ, Bool, true, false, ◌||◌, List, [], ◌∷◌, Option, none, some, keep, All}
use teide.Base.Strip.{is_space}
use teide.Base.Text.{Text, text, text_eq, contains}
use teide.Vkex.Registry.Select.{
  FeatureInfo, SelectOptions, sort_by_number, is_version, is_included, is_removed, select,
}
use teide.Vkex.Registry.Select.Laws.{select_lem}
use teide.Vkex.Registry.Select.Names.{names, keys, IsAscending}
use teide.Vkex.Registry.Select.Target.{
  IsNamed, is_supported, is_wanted, options_of, select-target_of,
}
use teide.Vkex.Target.{Arguments, TargetOptions, space_parts, split_args, target_of}
use teide.Vkex.Target.Regex.{matches}
use teide.Vkex.Target.Selected.{ArePlain}
use teide.Vkex.Xml.{element, nil}

abbrev version : Text → FeatureInfo
version name = record {
  name = name;
  elem = element (text "feature") ((text "api", text "vulkan") ∷ []) none nil none;
  number = 0;
}

abbrev extension : Text → ℕ → Text → FeatureInfo
extension name number supported = record {
  name = name;
  elem = element (text "extension") ((text "supported", supported) ∷ []) none nil none;
  number = number;
}

abbrev apidict : List FeatureInfo
apidict = version (text "VK_1") ∷ version (text "VK_2") ∷ []

abbrev extdict : List FeatureInfo
extdict =
    extension (text "VK_B") 2 (text "vulkan,vulkansc")
    ∷ extension (text "VK_A") 1 (text "vulkan")
    ∷ extension (text "VK_C") 3 (text "disabled")
    ∷ []

abbrev arguments : Arguments
arguments = record {
  apiname = none;
  merge_api_names = none;
  extension = [];
  remove_extensions = [];
  emit_extensions = [];
  feature = text "VK_1" ∷ [];
  protect = true;
  directory = text ".";
  misracstyle = false;
  misracppstyle = false;
}

-- Patterns that are not read are taken to find nothing.
abbrev answer : Option Bool → Bool
answer none = false
answer (some b) = b

abbrev re_match : Text → Text → Bool
re_match p n = answer (matches p n)

agrees : (p n : Text) (b : Bool) → matches p n ≡ some b → re_match p n ≡ b
agrees p n b e = rw e refl

abbrev target : TargetOptions
target = target_of (text "vulkan") arguments

abbrev options : SelectOptions
options = options_of re_match none target

in_order : names (sort_by_number extdict) ≡ text "VK_A" ∷ text "VK_B" ∷ text "VK_C" ∷ []
unfolding sort_by_number
in_order = refl

named : All IsNamed extdict
unfolding text_eq
named = (refl, (refl, (refl, tt)))

plain : ArePlain (split_args arguments.feature)
unfolding space_parts is_space
plain = (refl, tt)

select-target_of_example :
    ((select options apidict extdict).required_extensions
      ≡ names (keep (is_supported target.apiname) (sort_by_number extdict)))
    × ((n : Text) → contains (select options apidict extdict).removed_extension_names n ≡ false)
    × ((n : Text)
        → contains (keys (select options apidict extdict).gen_features) n ≡ (
            contains
              (names (keep (is_wanted target.apiname (split_args arguments.feature)) apidict))
              n
            || contains (names (keep (is_supported target.apiname) extdict)) n))
select-target_of_example =
    select-target_of re_match agrees none (text "vulkan") arguments refl plain apidict extdict named

select_lem_example :
    ((n : Text)
      → contains (keys (select options apidict extdict).gen_features) n ≡ (
          contains (names (keep (is_version options) apidict)) n
          || contains (names (keep (is_included options) extdict)) n))
    × ((select options apidict extdict).required_extensions
        ≡ names (keep (is_included options) (sort_by_number extdict)))
    × IsAscending (sort_by_number extdict)
    × ((n : Text)
        → contains (select options apidict extdict).removed_extension_names n
          ≡ contains (names (keep (is_removed options) extdict)) n)
select_lem_example = select_lem options apidict extdict
