-- ===== src/UpdateReferences/Found.antt =====
-- tools/update_references.py: the sets of file names are compared before any file is opened.
use teide.Base.{
  ◌≡◌, ◌≢◌, refl, Bool, true, List, [], ◌∷◌, Option, none, some, ◌⊎◌, map, all, All, arith,
  Bool-cases, inl, inr,
}
use teide.Base.Text.{Text, text_eq, text_eq_iff, text_eq_refl, contains}
use teide.UpdateReferences.{
  Hash, hash_file, Dir, OutputDir, file_names, same_set, all_same, remove_suffix, is_some, lookup,
  out_suffix, ref_name, out_images, Outcome, file_not_found, contents, copy, copy_all, compare_all,
  update_from, find_outputs, update_references,
}
use teide.UpdateReferences.Updated.{contains-keep}

Holds : Dir → Text → Type 0
Holds dir name = contains (file_names dir) name ≡ true

lookup-Holds : (dir : Dir) (name : Text) → Holds dir name → (c : Text) × (lookup dir name ≡ some c)
unfolding lookup Holds
lookup-Holds [] name there = cc
lookup-Holds ((other, content) ∷ dir) name there = elim (Bool-cases (text_eq other name)) [
  | inl same ↦ (content, rw same refl)
  | inr apart ↦
      let (c, found) =
        lookup-Holds dir name (ground (arith, text_eq_iff other name, text_eq_iff name other)) in
      (c, rw apart found)
]

all-contains :
    (p : Text → Bool) (xs : List Text) (name : Text)
    → all p xs ≡ true
    → contains xs name ≡ true
    → p name ≡ true
all-contains p [] name h there = cc
all-contains p (x ∷ xs) name h there = ground (arith, all-contains p xs name, text_eq_iff name x)

same_set-Holds :
    (dir first : Dir) (name : Text)
    → same_set (file_names dir) (file_names first) ≡ true
    → Holds first name
    → Holds dir name
unfolding same_set Holds
same_set-Holds dir first name same there =
    all-contains (contains (file_names dir)) (file_names first) name (ground arith) there

all_same-Holds :
    (first : Dir) (dirs : List Dir) (name : Text)
    → all (λ y. same_set y (file_names first)) (map file_names dirs) ≡ true
    → Holds first name
    → All (λ dir. Holds dir name) dirs
all_same-Holds first [] name same there = tt
all_same-Holds first (dir ∷ dirs) name same there = (
  same_set-Holds dir first name (ground arith) there,
  all_same-Holds first dirs name (ground arith) there,
)

contents-Holds :
    (dirs : List Dir) (name : Text)
    → All (λ dir. Holds dir name) dirs
    → (found : List Text) × (contents dirs name ≡ some found)
unfolding contents
contents-Holds [] name h = ([], refl)
contents-Holds (dir ∷ dirs) name h =
    let (c, here) = lookup-Holds dir name h.0 in
    let (more, there) = contents-Holds dirs name h.1 in (c ∷ more, rw (contents, here, there) refl)

compare_all_finds :
    (h : Hash) (dirs : List Dir) (names : List Text) (next : Outcome)
    → ((n : Text) → contains names n ≡ true → (found : List Text) × (contents dirs n ≡ some found))
    → next ≢ file_not_found
    → compare_all h dirs names next ≢ file_not_found
unfolding compare_all
compare_all_finds h dirs [] next finds last = last
compare_all_finds h dirs (n ∷ names) next finds last =
    let (found, here) = finds n (rw text_eq_refl refl) in
    let later = compare_all_finds h dirs names next (λ m there. finds m (ground arith)) last in
    elim (Bool-cases (all_same text_eq (map (hash_file h 65536) found))) [
      | inl same ↦ rw (compare_all, here, same) later
      | inr apart ↦ λ e. cc (rw (compare_all, here, apart) at e)
    ]

copy_all_finds :
    (first : Dir) (names : List Text) (references : Dir)
    → ((n : Text) → contains names n ≡ true → (c : Text) × (lookup first n ≡ some c))
    → copy_all first names references ≢ file_not_found
unfolding copy_all
copy_all_finds first [] references finds = λ e. cc
copy_all_finds first (n ∷ names) references finds =
    let (c, here) = finds n (rw text_eq_refl refl) in
    rw (copy_all, here)
      (copy_all_finds first names (copy c (ref_name n) references)
        λ m there. finds m (ground arith))

out_images-Holds :
    (first : Dir) (name : Text) → contains (out_images first) name ≡ true → Holds first name
unfolding out_images Holds
out_images-Holds first name there =
    (contains-keep (λ n. is_some (remove_suffix n out_suffix)) (file_names first) name there).1

update_from_finds :
    (h : Hash) (dirs : List Dir) (references : Dir)
    → update_from h dirs (some references) ≢ file_not_found
unfolding update_from all_same
update_from_finds h [] references = λ e. cc
update_from_finds h (first ∷ rest) references =
    elim (Bool-cases (all_same same_set (map file_names (first ∷ rest)))) [
      | inr apart ↦ λ e. cc (rw (update_from, apart) at e)
      | inl same ↦
          rw (update_from, same)
            (compare_all_finds h (first ∷ rest) (out_images first)
              (copy_all first (out_images first) references)
              (λ n there.
                contents-Holds (first ∷ rest) n
                  (all_same-Holds first (first ∷ rest) n same (out_images-Holds first n there)))
              (copy_all_finds first (out_images first) references
                λ n there. lookup-Holds first n (out_images-Holds first n there)))
    ]

-- A FileNotFoundError has only two reasons: the given directory or that of the references is missing. So
-- none is raised for an image while the images are compared or copied, whatever the directories hold.
pub update_references-file_not_found :
    (h : Hash) (entries : Option (List OutputDir)) (references : Option Dir)
    → update_references h entries references ≡ file_not_found
    → (entries ≡ none) ⊎ (references ≡ none)
unfolding update_references
update_references-file_not_found h none references e = inl refl
update_references-file_not_found h (some entries) none e = inr refl
update_references-file_not_found h (some entries) (some references) e =
    absurd (update_from_finds h (find_outputs entries) references e)
