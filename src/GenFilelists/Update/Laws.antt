-- ===== src/GenFilelists/Update/Laws.antt =====
-- tools/gen_filelists.py: the files after `gen_filelist`.
use teide.Base.{
  ◌≡◌, ◌≢◌, refl, ◌∙◌, ℕ, ◌+◌, false, [], ◌∷◌, Option, none, some, arith, Bool-cases, inl, inr,
  if◌then◌else◌,
}
use mathlib.Core.List.{append_cancel_left}
use teide.Base.Text.{Text, text, text_eq, text_eq_iff, text_eq_refl}
use teide.GenFilelists.Paths.{path_join, ends_with_slash}
use teide.GenFilelists.Listing.{Tree, render, source_list}
use teide.GenFilelists.Update.{File, World, returned, write, replace_if_changed, gen_filelist}

path_join-ne : (dir s t : Text) → s ≢ t → path_join dir s ≢ path_join dir t
unfolding path_join
path_join-ne [] s t h e = h e
path_join-ne (c ∷ dir) s t h e = elim (Bool-cases (ends_with_slash (c ∷ dir))) [
  | inl slash ↦ h (append_cancel_left (c ∷ dir) s t (rw slash at e))
  | inr other ↦
      let tails = append_cancel_left (c ∷ dir) (b'/' ∷ s) (b'/' ∷ t) (rw other at e) in h (cc)
]

-- The list of the project on disk.
abbrev pub out_file : Text → Text
out_file dir = path_join dir (text "FileLists.cmake")

abbrev pub temp_file : Text → Text
temp_file dir = path_join dir (text "FileLists.cmake.temp")

text_ne : (s t : Text) → s ≢ t → text_eq s t ≡ false
text_ne s t h = ground (arith, text_eq_iff s t)

-- The files after an update of `out` to `formatted` by way of `temp`.
pub record IsUpdate (out temp formatted : Text) (before after : Text → Option File) : Type 0 where
  -- The temporary file is gone.
  pub temp_gone : after temp ≡ none
  -- The list holds the formatted text.
  pub in_place : (file : File) × (after out ≡ some file) × (file.content ≡ formatted)
  -- A list that held it already was not written again.
  pub kept : (old : File) → before out ≡ some old → old.content ≡ formatted → after out ≡ some old
  -- All other files are left alone.
  pub others : (path : Text) → path ≢ out → path ≢ temp → after path ≡ before path

-- The file that ends up as the list.
abbrev chosen : Option File → File → File
chosen none new = new
chosen (some old) new = if text_eq old.content new.content then old else new

module _ (dir out temp : Text) (apart : out ≢ temp) (w : World) (new : File)
    (drafted : w.files temp ≡ some new) where
  abbrev after : Text → Option File
  after = (replace_if_changed dir out temp w).files

  after_lem :
      (old : Option File)
      → w.files out ≡ old
      → (path : Text)
      → after path ≡ (
          if text_eq path temp
          then none
          else if text_eq path out
          then some (chosen old new)
          else w.files path)
  unfolding replace_if_changed
  after_lem none e path =
      ground (arith, text_eq_iff temp out, text_eq_iff path temp, text_eq_iff path out)
  after_lem (some old) e path =
      ground (arith, text_eq_iff temp out, text_eq_iff path temp, text_eq_iff path out)

  chosen_content : (old : Option File) → (chosen old new).content ≡ new.content
  chosen_content none = refl
  chosen_content (some old) = ground (arith, text_eq_iff old.content new.content)

  pub replace_if_changed-IsUpdate : IsUpdate out temp new.content w.files after
  replace_if_changed-IsUpdate =
      let law = after_lem (w.files out) refl in
      record {
        temp_gone = law temp ∙ rw (text_eq_refl temp);
        in_place = (
          chosen (w.files out) new,
          law out ∙ rw (text_ne out temp apart, text_eq_refl out),
          chosen_content (w.files out),
        );
        kept = λ old there same.
            law out
            ∙ rw (text_ne out temp apart, text_eq_refl out, there)
                (rw ((text_eq_iff old.content new.content).1 same));
        others = λ path not_out not_temp.
            law path ∙ rw (text_ne path temp not_temp, text_ne path out not_out);
      }

-- Two writes to the temporary file change no other file.
drafted_others :
    (temp first second : Text) (w : World) (path : Text)
    → path ≢ temp
    → (write temp second (write temp first w)).files path ≡ w.files path
unfolding write
drafted_others temp first second w path h = rw (text_ne path temp h)

path_join-list-ne-temp :
    (dir : Text)
    → path_join dir (text "FileLists.cmake") ≢ path_join dir (text "FileLists.cmake.temp")
path_join-list-ne-temp dir = path_join-ne dir _ _ (λ e. cc)

-- `gen_filelist` puts the formatted list in place by way of the temporary file. A list that holds
-- the same text already keeps its time of writing, and all other files are left alone.
pub gen_filelist-IsUpdate :
    (cmake_format : Text → Option Text) (sep : ℕ) (dir : Text) (src include : Option Tree)
    (w : World) (formatted : Text)
    → cmake_format (render (source_list sep src include)) ≡ some formatted
    → (w' : World) × (gen_filelist cmake_format sep dir src include w ≡ returned w')
      × IsUpdate
          (path_join dir (text "FileLists.cmake"))
          (path_join dir (text "FileLists.cmake.temp"))
          formatted
          w.files
          w'.files
unfolding gen_filelist
gen_filelist-IsUpdate cmake_format sep dir src include w formatted e =
    let out = path_join dir (text "FileLists.cmake") in
    let temp = path_join dir (text "FileLists.cmake.temp") in
    let content = render (source_list sep src include) in
    let apart = path_join-list-ne-temp dir in
    let v = write temp formatted (write temp content w) in
    let new : File = record { content = formatted; written = w.clock + 1 } in
    let there : v.files temp ≡ some new = rw text_eq_refl in
    let update = replace_if_changed-IsUpdate dir out temp apart v new there in
    let same = drafted_others temp content formatted w in
    (
      replace_if_changed dir out temp v,
      rw (e, gen_filelist),
      record {
        temp_gone = update.temp_gone;
        in_place = update.in_place;
        kept = λ old was. update.kept old (same out apart ∙ was);
        others = λ path not_out not_temp. update.others path not_out not_temp ∙ same path not_temp;
      },
    )
