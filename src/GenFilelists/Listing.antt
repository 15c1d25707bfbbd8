-- ===== src/GenFilelists/Listing.antt =====
-- tools/gen_filelists.py: `add_source_files`, and the text that `gen_filelist` writes.
pub mod Sorting
pub mod Reorder
pub mod Complete
pub mod Rendering
use teide.Base.{
  ℕ, Bool, true, false, ◌&&◌, ◌||◌, not, List, [], ◌∷◌, ◌++◌, ◌==◌, if◌then◌else◌, map, Option,
  none, some,
}
use teide.Base.Text.{Text, text, text_le}
use teide.GenFilelists.Paths.{is_source_file}

-- A directory: its files and its subdirectories, in the order in which the system lists them.
mutual
  pub data Tree : Type 0 where
    dir : List Text → Subdirs → Tree

  pub data Subdirs : Type 0 where
    end : Subdirs
    entry : Text → Tree → Subdirs → Subdirs

-- `os.walk(top)`, without the names of the subdirectories; `sep` is `os.sep`.
module _ (sep : ℕ) where
  unfoldable mutual
    pub walk : Text → Tree → List (Text × List Text)
    walk top (dir files subdirs) = (top, files) ∷ walk_subdirs top subdirs

    pub walk_subdirs : Text → Subdirs → List (Text × List Text)
    walk_subdirs top end = []
    walk_subdirs top (entry name tree subdirs) =
        walk (top ++ (sep ∷ name)) tree ++ walk_subdirs top subdirs

  -- `root.replace(os.sep, '/')`
  unfoldable pub replace_sep : Text → Text
  replace_sep [] = []
  replace_sep (c ∷ root) = (if c == sep then b'/' else c) ∷ replace_sep root

abbrev pub has : ℕ → Text → Bool
has c [] = false
has c (d ∷ s) = d == c || has c s

abbrev quoted : Text → Text
quoted name = b'"' ∷ (name ++ (b'"' ∷ []))

-- The entry of a file; `root` has its separators replaced.
unfoldable pub new_file : Text → Text → Text
new_file root file = let path = root ++ (b'/' ∷ file) in if has b' ' path then quoted path else path

-- The inner loop.
unfoldable pub add_files : Text → List Text → List Text → List Text
unfolding new_file
add_files root [] source_files = source_files
add_files root (file ∷ files) source_files =
    add_files root files
      (if is_source_file file then source_files ++ (new_file root file ∷ []) else source_files)

-- The loop over the walk.
unfoldable pub add_walk : ℕ → List (Text × List Text) → List Text → List Text
unfolding add_files replace_sep
add_walk sep [] source_files = source_files
add_walk sep ((root, files) ∷ rest) source_files =
    add_walk sep rest (add_files (replace_sep sep root) files source_files)

-- `subdir` may be missing, and `os.walk` gives nothing then.
unfoldable pub add_source_files : ℕ → List Text → Option Tree → Text → List Text
unfolding add_walk walk
add_source_files sep source_files none subdir = source_files
add_source_files sep source_files (some tree) subdir =
    add_walk sep (walk sep subdir tree) source_files

unfoldable pub insert : Text → List Text → List Text
insert s [] = s ∷ []
insert s (t ∷ ts) = if text_le s t then s ∷ t ∷ ts else t ∷ insert s ts

-- `source_files.sort()`
unfoldable pub sort : List Text → List Text
unfolding insert
sort [] = []
sort (s ∷ ts) = insert s (sort ts)

-- `sep.join(parts)`
unfoldable pub join : Text → List Text → Text
join sep [] = []
join sep (s ∷ []) = s
join sep (s ∷ t ∷ ts) = s ++ (sep ++ join sep (t ∷ ts))

-- The three writes to the temporary file.
unfoldable pub render : List Text → Text
unfolding join
render source_files =
    text "set(sources" ++ (text "\n    " ++ (join (text "\n    ") source_files ++ text ")\n"))

-- The two calls of `add_source_files` in `gen_filelist`.
abbrev pub found_files : ℕ → Option Tree → Option Tree → List Text
found_files sep src include =
    add_source_files sep (add_source_files sep [] src (text "src")) include (text "include")

-- The sorted entries of a project with these two directories.
unfoldable pub source_list : ℕ → Option Tree → Option Tree → List Text
unfolding add_source_files sort
source_list sep src include = sort (found_files sep src include)
