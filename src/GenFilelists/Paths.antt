-- ===== src/GenFilelists/Paths.antt =====
-- tools/gen_filelists.py: `is_source_file`, and what the script uses of `os.path` (on POSIX).
pub mod Extension
use Prim.Native.Nat.{zero, suc}
use teide.Base.{ℕ, Bool, true, false, ◌&&◌, List, [], ◌∷◌, ◌++◌, ◌==◌, if◌then◌else◌}
use teide.Base.Text.{Text, text, contains}

-- The part behind the last `/`; `name` is what has been read of it.
basename_from : Text → Text → Text
basename_from name [] = name
basename_from name (c ∷ rest) = basename_from (if c == b'/' then [] else name ++ (c ∷ [])) rest

unfoldable pub basename : Text → Text
unfolding basename_from
basename = basename_from []

strip_dots : Text → Text
strip_dots [] = []
strip_dots (c ∷ rest) = if c == b'.' then strip_dots rest else c ∷ rest

abbrev extend : Text → ℕ → Text
extend [] c = []
extend (d ∷ found) c = d ∷ found ++ (c ∷ [])

-- The part from the last dot on; `found` is what has been read of it.
extension_from : Text → Text → Text
extension_from found [] = found
extension_from found (c ∷ rest) = extension_from (if c == b'.' then c ∷ [] else extend found c) rest

-- `os.path.splitext(filename)[1]`: the dots that begin the last component do not count.
unfoldable pub extension : Text → Text
unfolding basename strip_dots extension_from
extension filename = extension_from [] (strip_dots (basename filename))

abbrev pub source_extensions : List Text
source_extensions = text ".h" ∷ text ".hpp" ∷ text ".cpp" ∷ text ".natvis" ∷ []

unfoldable pub is_source_file : Text → Bool
unfolding extension
is_source_file filename = contains source_extensions (extension filename)

unfoldable pub ends_with_slash : Text → Bool
ends_with_slash [] = false
ends_with_slash (c ∷ []) = c == b'/'
ends_with_slash (c ∷ d ∷ rest) = ends_with_slash (d ∷ rest)

-- `os.path.join(dir, name)` for a relative `name`.
unfoldable pub path_join : Text → Text → Text
unfolding ends_with_slash
path_join [] name = name
path_join (c ∷ dir) name =
    if ends_with_slash (c ∷ dir) then (c ∷ dir) ++ name else (c ∷ dir) ++ (b'/' ∷ name)
