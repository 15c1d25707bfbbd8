-- ===== src/CheckReadme/Examples.antt =====
-- tools/check_readme.py on a small README.
use teide.Base.{◌≡◌, refl, List, [], ◌∷◌, if◌then◌else◌}
use teide.Base.Int.{ℤ, pos}
use teide.Base.Strip.{strip, split}
use teide.Base.Text.{Text, text, text_eq, starts_with}
use teide.CheckReadme.{passed, failed, scan_line, check_readme}

abbrev readme : List Text
readme =
    text "    $ before\n"
    ∷ text "Building\n"
    ∷ text "--------\n"
    ∷ text "**Windows**: do this\n"
    ∷ text "    $ msvc\n"
    ∷ text "**Linux**: do that\n"
    ∷ text "    $ make all  \n"
    ∷ text "    $ ctest\n"
    ∷ text "Running\n"
    ∷ text "=======\n"
    ∷ text "    $ teide\n"
    ∷ []

abbrev processes : Text → ℤ
processes command = if text_eq command (text "ctest") then pos 8 else pos 0

readme-linux :
    check_readme (text "Linux") processes readme ≡ failed (text "make all" ∷ text "ctest" ∷ []) 8
unfolding check_readme scan_line strip split text_eq starts_with
readme-linux = refl

readme-windows : check_readme (text "Windows") processes readme ≡ passed (text "msvc" ∷ [])
unfolding check_readme scan_line strip split text_eq starts_with
readme-windows = refl
