-- ===== src/Vkex/File/Examples.antt =====
-- tools/vkex/vkexgenerator.py: the guard of a file.
use teide.Base.{◌≡◌, refl, ℕ, ◌-◌, true, ◌&&◌, leb, [], ◌∷◌, some, if◌then◌else◌}
use teide.Base.Text.{Text, text, starts_with}
use teide.GenFilelists.Listing.{join}
use teide.GenFilelists.Paths.{basename}
use teide.Vkex.File.{end_file, upper_text, sub_hpp}
use teide.Vkex.Sections.{write}

abbrev ascii_upper : ℕ → Text
ascii_upper c = (if leb b'a' c && leb c b'z' then c - 32 else c) ∷ []

header_sym : upper_text ascii_upper (sub_hpp 0 (basename (text "out/vkex.hpp"))) ≡ text "VKEX_HPP_"
unfolding upper_text sub_hpp basename starts_with
header_sym = refl

ending : end_file true (some (text "vkex.hpp")) ≡ text "\n} // namespace vkex\n\n#endif\n"
unfolding end_file write join
ending = refl
