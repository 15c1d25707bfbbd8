-- ===== src/GenFilelists/Update.antt =====
-- tools/gen_filelists.py: what `gen_filelist` does to the files of a project.
pub mod Laws
use teide.Base.{
  ℕ, ◌+◌, suc, Bool, true, false, List, [], ◌∷◌, ◌++◌, Option, none, some, if◌then◌else◌,
}
use teide.Base.Text.{Text, text, text_eq}
use teide.GenFilelists.Paths.{path_join}
use teide.GenFilelists.Listing.{Tree, render, source_list}

-- A file, with the time at which its content was written.
pub record File : Type 0 where
  pub content : Text
  pub written : ℕ

-- The files by path, the clock, and the printed lines.
pub record World : Type 0 where
  pub files : Text → Option File
  pub clock : ℕ
  pub printed : List Text

abbrev pub put : (Text → Option File) → Text → Option File → Text → Option File
put files path file other = if text_eq other path then file else files other

pub data Outcome : Type 0 where
  returned : World → Outcome
  -- FileNotFoundError
  not_found : World → Outcome

-- `open(path, "w")` with the writes to it.
unfoldable pub write : Text → Text → World → World
write path content w = record w {
  files = put w.files path (some (record { content = content; written = w.clock }));
  clock = w.clock + 1;
}

-- `os.remove`, of a file that is there.
unfoldable pub remove : Text → World → World
remove path w = record w { files = put w.files path none }

-- `os.rename(source, target)`
unfoldable pub rename : Text → Text → World → World
rename source target w = record w { files = put (put w.files target (w.files source)) source none }

abbrev content_of : Option File → Text
content_of none = []
content_of (some file) = file.content

abbrev is_file : Option File → Bool
is_file none = false
is_file (some file) = true

-- The last part: keep the old file or put the new one in its place.
unfoldable pub replace_if_changed : Text → Text → Text → World → World
unfolding remove rename
replace_if_changed dir outfilename tempfilename w =
    let old = w.files outfilename in
    let new = content_of (w.files tempfilename) in
    if (if is_file old then text_eq (content_of old) new else false)
    then remove tempfilename w
    else (let cleared = if is_file old then remove outfilename w else w in
        let moved = rename tempfilename outfilename cleared in
        record moved { printed = moved.printed ++ ((text "Updated file list for " ++ dir) ∷ []) })

-- `cmake_format` is what running cmake-format on a text leaves in the file, or nothing where the
-- program is not installed.
module _ (cmake_format : Text → Option Text) where
  unfoldable pub gen_filelist : ℕ → Text → Option Tree → Option Tree → World → Outcome
  unfolding replace_if_changed write
  gen_filelist sep dir src include w =
      let outfilename = path_join dir (text "FileLists.cmake") in
      let tempfilename = path_join dir (text "FileLists.cmake.temp") in
      let content = render (source_list sep src include) in
      let drafted = write tempfilename content w in
      elim (cmake_format content) [
        | none ↦ not_found drafted
        | some formatted ↦
            returned (
              replace_if_changed dir outfilename tempfilename
                (write tempfilename formatted drafted))
      ]
