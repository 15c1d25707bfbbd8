-- ===== src/GenFilelists/Projects.antt =====
-- tools/gen_filelists.py: `find_project_dirs`, the search for the directories with sources.
use teide.Base.{Bool, ◌&&◌, ◌||◌, List, [], ◌∷◌, ◌++◌, Option, none, some, if◌then◌else◌}
use teide.Base.Text.{Text, text, text_eq, contains}
use teide.GenFilelists.Paths.{path_join}
use teide.GenFilelists.Listing.{Tree, Subdirs, dir, end, entry}

abbrev dir_names : Subdirs → List Text
dir_names end = []
dir_names (entry name tree subdirs) = name ∷ dir_names subdirs

-- The test on one directory of the walk.
unfoldable pub is_project : List Text → Subdirs → Bool
is_project files subdirs =
    contains files (text "CMakeLists.txt")
    && (contains (dir_names subdirs) (text "src") || contains (dir_names subdirs) (text "include"))

-- `os.walk(top)` with the test: the directories that are yielded.
unfoldable mutual
  pub projects : Text → Tree → List Text
  projects top (dir files subdirs) =
      let below = projects_below top subdirs in
      if is_project files subdirs then top ∷ below else below

  pub projects_below : Text → Subdirs → List Text
  projects_below top end = []
  projects_below top (entry name tree subdirs) =
      projects (path_join top name) tree ++ projects_below top subdirs

abbrev pub project_subdirs : List Text
project_subdirs =
    text "tests"
    ∷ text "examples"
    ∷ text "benchmarks"
    ∷ text "tools"
    ∷ text "libs"
    ∷ text "extras"
    ∷ []

-- `os.walk` gives nothing for a missing directory.
find_subdir : Text → Subdirs → Option Tree
find_subdir name end = none
find_subdir name (entry other tree subdirs) =
    if text_eq other name then some tree else find_subdir name subdirs

walk_subdir : Text → Text → Option Tree → List Text
walk_subdir root_dir subdir none = []
walk_subdir root_dir subdir (some tree) = projects (path_join root_dir subdir) tree

for_subdirs : Text → Subdirs → List Text → List Text
for_subdirs root_dir subdirs [] = []
for_subdirs root_dir subdirs (subdir ∷ rest) =
    walk_subdir root_dir subdir (find_subdir subdir subdirs) ++ for_subdirs root_dir subdirs rest

-- All that the generator yields for the tree at `root_dir`.
unfoldable pub find_project_dirs : Text → Tree → List Text
unfolding projects for_subdirs walk_subdir find_subdir
find_project_dirs root_dir (dir files subdirs) =
    let rest = for_subdirs root_dir subdirs project_subdirs in
    if contains files (text "CMakeLists.txt") then root_dir ∷ rest else rest
