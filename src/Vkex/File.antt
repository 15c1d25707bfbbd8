-- ===== src/Vkex/File.antt =====
-- tools/vkex/vkexgenerator.py: what is written at the beginning and at the end of the file.
mod Examples
use teide.Base.{
  ℕ, zero, suc, ◌+◌, Bool, true, false, ◌&&◌, List, [], ◌∷◌, ◌++◌, Option, none, some,
  if◌then◌else◌,
}
use teide.Base.Text.{Text, text, starts_with}
use teide.GenFilelists.Paths.{basename}
use teide.Vkex.Sections.{write}
use teide.Vkex.Xml.{truthy, none_str}

-- `re.sub(r'\.hpp', '_hpp_', s)`; the number is how many characters of a match are left to pass over.
unfoldable pub sub_hpp : ℕ → Text → Text
sub_hpp n [] = []
sub_hpp (suc n) (c ∷ s) = sub_hpp n s
sub_hpp zero (c ∷ s) = elim (starts_with (c ∷ s) (text ".hpp")) [
  | true ↦ text "_hpp_" ++ sub_hpp 3 s
  | false ↦ c ∷ sub_hpp zero s
]

abbrev line_of : List Text → Text
line_of args = write args (text "\n")

abbrev new_line : Text
new_line = line_of ([] ∷ [])

-- The macros of the versions, from this one on.
unfoldable pub version_macros : (ℕ → Text) → ℕ → ℕ → Text
unfolding write
version_macros digit i zero = []
version_macros digit i (suc n) =
    line_of ((text "#define VK_BASE_VERSION_1_" ++ digit i) ∷ [])
    ++ (line_of ((text "#define VK_COMPUTE_VERSION_1_" ++ digit i) ∷ [])
        ++ (line_of ((text "#define VK_GRAPHICS_VERSION_1_" ++ digit i) ∷ [])
            ++ version_macros digit (i + 1) n))

abbrev digit : ℕ → Text
digit i = (b'0' + i) ∷ []

abbrev prefix_lines : List Text → Text
prefix_lines [] = []
prefix_lines (s ∷ ss) = line_of (s ∷ []) ++ prefix_lines ss

-- `upper` is `str.upper` of a character.
module _ (upper : ℕ → Text) where
  unfoldable pub upper_text : Text → Text
  upper_text [] = []
  upper_text (c ∷ s) = upper c ++ upper_text s

  unfoldable pub begin_file : Bool → Option Text → List Text → Text
  unfolding basename sub_hpp upper_text version_macros
  begin_file protect_file filename prefix_text =
      let header_sym = upper_text (sub_hpp 0 (basename (none_str filename))) in
      (if protect_file && truthy filename
        then line_of (text "#ifndef" ∷ header_sym ∷ [])
          ++ (line_of (text "#define" ∷ header_sym ∷ []) ++ new_line)
        else [])
      ++ (line_of (text "#include \"vkex/vkex_utils.hpp\"" ∷ [])
          ++ (new_line
              ++ (version_macros digit 0 5
                  ++ (new_line
                      ++ (prefix_lines prefix_text
                          ++ (new_line
                              ++ (line_of (text "namespace vkex\n{" ∷ []) ++ new_line)))))))

unfoldable pub end_file : Bool → Option Text → Text
unfolding write
end_file protect_file filename =
    new_line
    ++ (line_of (text "} // namespace vkex" ∷ [])
        ++ (if protect_file && truthy filename
            then new_line ++ line_of (text "#endif" ∷ [])
            else []))
