-- ===== src/CheckReadme.antt =====
-- tools/check_readme.py: the scan of README.md for build commands, which it runs.
pub mod Section
mod Examples
use teide.Base.{
  ℕ, suc, ◌+◌, Bool, true, false, not, ◌&&◌, ◌||◌, List, [], ◌∷◌, ◌++◌, ◌==◌, Option, none, some,
  all, if◌then◌else◌,
}
use teide.Base.Int.{ℤ, is_zero}
use teide.Base.Strip.{rstrip, strip, split}
use teide.Base.Text.{Text, text, text_eq, starts_with}

-- `bool(is_hr(line))`
unfoldable pub is_hr : Text → Bool
is_hr [] = false
is_hr (c ∷ line) = all (λ d. d == b'-' || d == b'=') (c ∷ line)

-- The variables of the loop.
pub record Scan : Type 0 where
  pub is_building_section : Bool
  pub platform_name : Option Text
  pub last_line : Text

abbrev pub start : Scan
start = record { is_building_section = false; platform_name = none; last_line = [] }

abbrev second : List Text → Text
second [] = []
second (a ∷ []) = []
second (a ∷ b ∷ rest) = b

-- `line.split("$")[1].strip()`, of a line that begins with four blanks and `$`.
unfoldable pub command_of : Text → Text
command_of line = strip (second (split b'$' line))

abbrev is_name : Text → Option Text → Bool
is_name system none = false
is_name system (some name) = text_eq system name

-- One line: the variables after it, and the command that is found and meant for this system.
module _ (system : Text) where
  unfoldable pub scan_line : Scan → Text → Scan × Option Text
  unfolding is_hr command_of
  scan_line s raw =
      let line = rstrip raw in
      if is_hr line
      then (
        record s { is_building_section = text_eq s.last_line (text "Building"); last_line = line },
        none,
      )
      else if not s.is_building_section
      then (record s { last_line = line }, none)
      else if starts_with line (text "**Windows**:")
      then (record s { platform_name = some (text "Windows"); last_line = line }, none)
      else if starts_with line (text "**Linux**:")
      then (record s { platform_name = some (text "Linux"); last_line = line }, none)
      else if starts_with line (text "    $")
      then (
        record s { last_line = line },
        (if is_name system s.platform_name then some (command_of line) else none),
      )
      else (record s { last_line = line }, none)

-- The commands that were run, and what came of them: all succeeded, or the last one failed on this
-- line and the script ended with exit status 1.
pub data Outcome : Type 0 where
  passed : List Text → Outcome
  failed : List Text → ℕ → Outcome

abbrev pub given : Option Text → List Text
given none = []
given (some command) = command ∷ []

module _ (system : Text) (run : Text → ℤ) where
  -- Whether a command was found and its process fails.
  abbrev pub fails : Option Text → Bool
  fails none = false
  fails (some command) = not (is_zero (run command))

  -- The loop from line `i` on.
  unfoldable pub check_from : Scan → ℕ → List Text → List Text → Outcome
  check_from s i ran [] = passed ran
  check_from s i ran (line ∷ lines) =
      let (s', found) = scan_line system s line in
      let rest = check_from s' (i + 1) (ran ++ given found) lines in
      if fails found then failed (ran ++ given found) (i + 1) else rest

  unfoldable pub check_readme : List Text → Outcome
  unfolding check_from
  check_readme lines = check_from start 0 [] lines
