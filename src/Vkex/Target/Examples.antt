-- ===== src/Vkex/Target/Examples.antt =====
-- tools/vkex/genvkex.py: a call with arguments.
use teide.Base.{◌≡◌, refl, true, false, [], ◌∷◌, none, some}
use teide.Base.Strip.{is_space}
use teide.Base.Text.{text, text_eq, starts_with}
use teide.Vkex.Target.{Arguments, re_escape, make_re_string, split_args, space_parts, target_of}
use teide.Vkex.Target.Regex.{inside, matches}
use teide.Vkex.Target.Selected.{Selects, target_of-Selects}

abbrev arguments : Arguments
arguments = record {
  apiname = none;
  merge_api_names = none;
  extension = [];
  remove_extensions = [];
  emit_extensions = [];
  feature = text "VK_VERSION_1_0 VK_VERSION_1_1" ∷ text " A_B" ∷ [];
  protect = true;
  directory = text ".";
  misracstyle = false;
  misracppstyle = false;
}

made :
    (target_of (text "vulkan") arguments).versions
    ≡ some (text "^(VK_VERSION_1_0|VK_VERSION_1_1|A_B)$")
unfolding target_of space_parts re_escape is_space
made = refl

-- A regular expression among the `-feature` arguments is taken literally.
escaped :
    (make_re_string (text "A.B" ∷ []) none false ≡ some (text "^(A\\.B)$"))
    × (matches (text "^(A\\.B)$") (text "A.B") ≡ some true)
    × (matches (text "^(A\\.B)$") (text "AxB") ≡ some false)
unfolding make_re_string re_escape matches inside text_eq starts_with
escaped = (refl, refl, refl)

-- The pattern of no strings at all matches the empty text.
of_none :
    (make_re_string [] none true ≡ some (text "^()$")) × (matches (text "^()$") [] ≡ some true)
unfolding make_re_string matches text_eq starts_with
of_none = (refl, refl)

target_of-Selects_example :
    Selects (target_of (text "vulkan") arguments).versions (split_args arguments.feature)
    × Selects (target_of (text "vulkan") arguments).emitversions (split_args arguments.feature)
    × Selects (target_of (text "vulkan") arguments).emit_extensions []
    × ((target_of (text "vulkan") arguments).versions
        ≡ make_re_string (split_args arguments.feature) (some (text ".*")) true)
unfolding space_parts is_space
target_of-Selects_example = target_of-Selects (text "vulkan") arguments (refl, (refl, (refl, tt)))
