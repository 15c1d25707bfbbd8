-- ===== src/UpdateReferences/Updated.antt =====
-- tools/update_references.py: the script as a whole, when it succeeds and when it does not.
use mathlib.Core.Option.{some-injective}
use teide.Base.{
  ◌≡◌, refl, Bool, true, List, [], ◌∷◌, Option, none, some, map, all, All, keep, arith, Bool-cases,
  Option-cases, inl, inr,
}
use teide.Base.Text.{Text, text_eq, text_eq_iff, contains}
use teide.UpdateReferences.{
  Hash, hash_file, Dir, OutputDir, file_names, same_set, all_same, remove_suffix, is_some, get_or,
  lookup, out_suffix, ref_name, out_images, Outcome, updated, contents, copy_all, copy_to,
  compare_all, update_from, find_outputs, update_references,
}
use teide.UpdateReferences.Agreement.{IsImage, Writes, copy_all-others, copy_all-copies}

pub contains-keep :
    (p : Text → Bool) (xs : List Text) (name : Text)
    → contains (keep p xs) name ≡ true
    → (p name ≡ true) × (contains xs name ≡ true)
contains-keep p [] name e = cc
contains-keep p (x ∷ xs) name e = ground (arith, contains-keep p xs name, text_eq_iff name x)

-- A file of this content is found in the directory, and it has the same hash as this text.
abbrev pub Matches : Hash → Text → Text → Dir → Type 0
Matches h name c dir =
    (d : Text) × (lookup dir name ≡ some d) × (hash_file h 65536 d ≡ hash_file h 65536 c)

contents-Matches :
    (h : Hash) (dirs : List Dir) (name c : Text) (found : List Text)
    → contents dirs name ≡ some found
    → all (λ d. text_eq d (hash_file h 65536 c)) (map (hash_file h 65536) found) ≡ true
    → All (Matches h name c) dirs
unfolding contents
contents-Matches h [] name c found e same = tt
contents-Matches h (dir ∷ dirs) name c found e same = elim (Option-cases (lookup dir name)) [
  | inl lost ↦ cc (rw (contents, lost) at e)
  | inr (d, here) ↦ elim (Option-cases (contents dirs name)) [
    | inl lost ↦ let e' = rw (contents, here) at e in cc (rw lost at e')
    | inr (more, there) ↦
        let e' = rw (contents, here) at e in
        let shape : ◌≡◌ {A = Option (List Text)} (some (d ∷ more)) (some found) = rw there at e' in
        let same' = rw (← some-injective (d ∷ more) found shape) at same in
        (
          (d, here, (text_eq_iff (hash_file h 65536 d) (hash_file h 65536 c)).0 (ground arith)),
          contents-Matches h dirs name c more there (ground arith),
        )
  ]
]

compare_all-cons :
    (h : Hash) (dirs : List Dir) (n : Text) (names : List Text) (next : Outcome) (after : Dir)
    → compare_all h dirs (n ∷ names) next ≡ updated after
    → (found : List Text) × (contents dirs n ≡ some found)
      × (all_same text_eq (map (hash_file h 65536) found) ≡ true)
      × (compare_all h dirs names next ≡ updated after)
unfolding compare_all
compare_all-cons h dirs n names next after e = elim (Option-cases (contents dirs n)) [
  | inl lost ↦ cc (rw (lost, compare_all) at e)
  | inr (found, here) ↦
      let e' = rw (here, compare_all) at e in
      elim (Bool-cases (all_same text_eq (map (hash_file h 65536) found))) [
        | inl same ↦ (found, here, same, (rw same at e'))
        | inr apart ↦ cc (rw apart at e')
      ]
]

-- A run that gets past the comparisons has found each image in each directory.
compare_all-updated :
    (h : Hash) (dirs : List Dir) (names : List Text) (next : Outcome) (after : Dir)
    → compare_all h dirs names next ≡ updated after
    → (next ≡ updated after)
      × ((name : Text)
          → contains names name ≡ true
          → (found : List Text) × (contents dirs name ≡ some found)
            × (all_same text_eq (map (hash_file h 65536) found) ≡ true))
unfolding compare_all
compare_all-updated h dirs [] next after e = (e, λ name there. cc)
compare_all-updated h dirs (n ∷ names) next after e =
    let (found, here, same, e') = compare_all-cons h dirs n names next after e in
    let (done, later) = compare_all-updated h dirs names next after e' in
    (
      done,
      λ name there. elim (Bool-cases (contains names name)) [
        | inl again ↦ later name again
        | inr last ↦
            let equal : name ≡ n = (text_eq_iff name n).0 (ground arith) in
            (found, rw equal here, same)
      ],
    )

out_images-IsImage :
    (first : Dir) (name : Text) → contains (out_images first) name ≡ true → IsImage name
unfolding out_images
out_images-IsImage first name there =
    (contains-keep (λ n. is_some (remove_suffix n out_suffix)) (file_names first) name there).0

-- What a successful run has established and done.
abbrev pub IsUpdate : Hash → List Dir → Dir → Dir → Type 0
IsUpdate h dirs references after =
    (first : Dir) × (rest : List Dir) × (dirs ≡ first ∷ rest)
    × ((name : Text)
        → contains (out_images first) name ≡ true
        → (c : Text) × (lookup first name ≡ some c)
          × (lookup after (ref_name name) ≡ some c)
          × All (Matches h name c) rest)
    × ((other : Text)
        → ¬ Writes (out_images first) other
        → lookup after other ≡ lookup references other)

found_first :
    (h : Hash) (first : Dir) (rest : List Dir) (name c : Text) (found : List Text)
    → lookup first name ≡ some c
    → contents (first ∷ rest) name ≡ some found
    → all_same text_eq (map (hash_file h 65536) found) ≡ true
    → All (Matches h name c) rest
unfolding contents all_same
found_first h first rest name c found here e same = elim (Option-cases (contents rest name)) [
  | inl lost ↦ let e' = rw (contents, here) at e in cc (rw lost at e')
  | inr (more, there) ↦
      let e' = rw (contents, here) at e in
      let shape : ◌≡◌ {A = Option (List Text)} (some (c ∷ more)) (some found) = rw there at e' in
      let same' = rw (← some-injective (c ∷ more) found shape) at same in
      contents-Matches h rest name c more there (ground arith)
]

copy_to-updated :
    (first : Dir) (names : List Text) (references : Option Dir) (after : Dir)
    → copy_to first names references ≡ updated after
    → copy_all first names (get_or [] references) ≡ updated after
unfolding copy_all
copy_to-updated first names (some references) after e = e
copy_to-updated first [] none after e = e
copy_to-updated first (name ∷ names) none after e = cc

update_from-IsUpdate :
    (h : Hash) (dirs : List Dir) (references : Option Dir) (after : Dir)
    → update_from h dirs references ≡ updated after
    → IsUpdate h dirs (get_or [] references) after
unfolding update_from
update_from-IsUpdate h [] references after e = cc
update_from-IsUpdate h (first ∷ rest) references after e =
    elim (Bool-cases (all_same same_set (map file_names (first ∷ rest)))) [
      | inr apart ↦ cc (rw (update_from, apart) at e)
      | inl same ↦
          let (copied, compared) =
            compare_all-updated h (first ∷ rest) (out_images first)
              (copy_to first (out_images first) references) after (rw (update_from, same) at e) in
          let all_copied = copy_to-updated first (out_images first) references after copied in
          let old = get_or [] references in
          let copies =
            copy_all-copies first (out_images first) old after all_copied
              (out_images-IsImage first) in
          (
            first,
            rest,
            refl,
            λ name there.
                (let (c, here, set) = copies name there in
                  let (found, e', equal) = compared name there in
                  (c, here, set, found_first h first rest name c found here e' equal)),
            λ other apart.
                copy_all-others first (out_images first) old after other all_copied apart,
          )
    ]

-- Where the script succeeds, the given directory is there, and all output directories have each image of the first one, with the same
-- hash of its contents. Each image has become the reference of its name, and all other references
-- are left alone; if their directory is missing, there are none.
pub update_references-IsUpdate :
    (h : Hash) (entries : Option (List OutputDir)) (references : Option Dir) (after : Dir)
    → update_references h entries references ≡ updated after
    → (found : List OutputDir) × (entries ≡ some found)
      × IsUpdate h (find_outputs found) (get_or [] references) after
unfolding update_references
update_references-IsUpdate h none references after e = cc
update_references-IsUpdate h (some entries) references after e =
    (entries, refl, update_from-IsUpdate h (find_outputs entries) references after e)
