-- ===== src/CheckReadme/Section.antt =====
-- tools/check_readme.py: where commands are run, and when the script fails.
use teide.Base.{ℕ, ◌+◌, Bool, false, ◌&&◌, List, [], ◌∷◌, ◌++◌, Option, none, some, if◌then◌else◌}
use teide.Base.Int.{ℤ, is_zero}
use teide.Base.Strip.{rstrip}
use teide.Base.Text.{Text, text, text_eq, starts_with}
use teide.CheckReadme.{is_hr, Scan, command_of, scan_line, Outcome, passed, failed}

-- The lines above, the nearest one first, read as a section: the nearest rule underlines `Building`.
abbrev pub follows_building : List Text → Bool
follows_building [] = false
follows_building (above ∷ more) = text_eq above (text "Building")

abbrev pub in_building : List Text → Bool
in_building [] = false
in_building (line ∷ above) = if is_hr line then follows_building above else in_building above

-- The platform that the nearest heading of a platform within such a section names.
abbrev pub platform_above : List Text → Option Text
platform_above [] = none
platform_above (line ∷ above) =
    if in_building above && starts_with line (text "**Windows**:")
    then some (text "Windows")
    else if in_building above && starts_with line (text "**Linux**:")
    then some (text "Linux")
    else platform_above above

abbrev last_above : List Text → Text
last_above [] = []
last_above (line ∷ above) = line

abbrev scan_of : List Text → Scan
scan_of above = record {
  is_building_section = in_building above;
  platform_name = platform_above above;
  last_line = last_above above;
}

abbrev is_for : Text → Option Text → Bool
is_for system none = false
is_for system (some name) = text_eq system name

-- The commands for this system with the numbers of their lines, from 1: lines of a section
-- `Building` that begin with four blanks and a dollar.
module _ (system : Text) where
  pub commands_from : List Text → ℕ → List Text → List (ℕ × Text)
  commands_from above i [] = []
  commands_from above i (raw ∷ lines) =
      let line = rstrip raw in
      let rest = commands_from (line ∷ above) (i + 1) lines in
      if in_building above
        && starts_with line (text "    $")
        && is_for system (platform_above above)
      then (i + 1, command_of line) ∷ rest
      else rest

-- Runs them in order, up to the first that fails.
pub run_all : (Text → ℤ) → List Text → List (ℕ × Text) → Outcome
run_all run ran [] = passed ran
run_all run ran ((i, command) ∷ rest) =
    if is_zero (run command)
    then run_all run (ran ++ (command ∷ [])) rest
    else failed (ran ++ (command ∷ [])) i

module _ (system : Text) where
  module _ (above : List Text) (raw : Text) where
    abbrev scanned : Scan
    scanned = (scan_line system (scan_of above) raw).0
