-- ===== src/UpdateReferences/Examples.antt =====
-- tools/update_references.py at concrete inputs.
use mathlib.Core.List.{foldl, flatten, append_assoc, append-nil}
use teide.Base.{◌≡◌, ◌⊎◌, Option, none, some, refl, sym, ◌∙◌, List, [], ◌∷◌, ◌++◌}
use teide.Base.Text.{Text, text, text_eq, starts_with}
use teide.UpdateReferences.{
  Hash, read, hash_loop, hash_file, Dir, OutputDir, same_set, all_same, remove_suffix, lookup,
  ref_name, out_images, differing_results, file_not_found, updated, contents, copy, copy_all,
  compare_all, update_from, find_outputs, update_references, stem,
}
use teide.UpdateReferences.Hashing.{hash_file_lem}
use teide.UpdateReferences.Updated.{IsUpdate, update_references-IsUpdate}
use teide.UpdateReferences.Found.{update_references-file_not_found}

-- A hash that keeps all it is given.
abbrev all_bytes : Hash
all_bytes = record { State = Text; new = []; update = λ s b. s ++ b; digest = λ s. s }

foldl-flatten :
    (state : Text) (chunks : List Text)
    → foldl (λ s b. s ++ b) state chunks ≡ state ++ flatten chunks
unfolding flatten
foldl-flatten state [] = sym (append-nil state)
foldl-flatten state (c ∷ chunks) =
    foldl-flatten (state ++ c) chunks ∙ append_assoc state c (flatten chunks)

hash_file_lem_example : hash_file all_bytes 2 (text "abc") ≡ text "abc"
hash_file_lem_example = hash_file_lem all_bytes 1 (text "abc") (foldl-flatten [])

abbrev first_dir : Dir
first_dir = (text "a.out.png", text "red") ∷ (text "log.txt", text "x") ∷ []

abbrev second_dir : Dir
second_dir = (text "log.txt", text "y") ∷ (text "a.out.png", text "red") ∷ []

abbrev old : Dir
old = (text "b.png", text "blue") ∷ (text "a.png", text "grey") ∷ []

abbrev new : Dir
new = (text "b.png", text "blue") ∷ (text "a.png", text "red") ∷ []

abbrev entries : List OutputDir
entries =
    record { name = text "RenderTestOutput-linux"; files = first_dir }
    ∷ record { name = text "notes"; files = [] }
    ∷ record { name = text "RenderTestOutput-win.zip"; files = second_dir }
    ∷ []

run : update_references all_bytes (some entries) (some old) ≡ updated new
unfolding update_references find_outputs stem update_from all_same same_set out_images remove_suffix
    compare_all contents hash_file hash_loop read copy_all copy ref_name lookup text_eq starts_with
run = refl

differ :
    update_references all_bytes
      (some (record { name = text "RenderTestOutput-"; files = old } ∷ entries))
      (some old)
    ≡ differing_results
unfolding update_references find_outputs stem update_from all_same same_set text_eq starts_with
differ = refl

update_references-IsUpdate_example :
    (found : List OutputDir) × (◌≡◌ {A = Option (List OutputDir)} (some entries) (some found))
    × IsUpdate all_bytes (find_outputs found) old new
update_references-IsUpdate_example =
    update_references-IsUpdate all_bytes (some entries) (some old) new run

-- There is an image to copy, and no directory of references.
no_references : update_references all_bytes (some entries) none ≡ file_not_found
unfolding update_references find_outputs stem update_from all_same same_set out_images remove_suffix
    compare_all contents hash_file hash_loop read lookup text_eq starts_with
no_references = refl

update_references-file_not_found_example :
    (◌≡◌ {A = Option (List OutputDir)} (some entries) none) ⊎ (◌≡◌ {A = Option Dir} none none)
update_references-file_not_found_example =
    update_references-file_not_found all_bytes (some entries) none no_references
