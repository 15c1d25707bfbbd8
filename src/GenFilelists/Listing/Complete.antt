-- ===== src/GenFilelists/Listing/Complete.antt =====
-- tools/gen_filelists.py: the entries are those of the source files of the project.
use teide.Base.{
  ◌≡◌, sym, ◌∙◌, ap, ◌↔◌, ◌⊎◌, inl, inr, ℕ, Bool, true, ◌||◌, List, [], ◌∷◌, ◌++◌, arith,
  Bool-cases, Option, none, some,
}
use teide.Base.Text.{Text, text, text_eq, text_eq_iff, text_eq_refl, contains, contains-append}
use teide.GenFilelists.Paths.{is_source_file}
use teide.GenFilelists.Listing.{
  Tree, Subdirs, dir, end, entry, walk, walk_subdirs, replace_sep, new_file, found_files,
  source_list,
}
use teide.GenFilelists.Listing.Sorting.{IsSorted, sort-IsSorted, contains-sort}
use teide.GenFilelists.Listing.Reorder.{
  entries, entries_walk, entries_walk-append, added, add_source_files-added,
}

-- The file stands in the directory that is reached through the named subdirectories.
mutual
  pub data FileIn : Tree → List Text → Text → Type 0 where
    here :
        {files : List Text} {subdirs : Subdirs} {file : Text}
        → contains files file ≡ true
        → FileIn (dir files subdirs) [] file
    below :
        {files : List Text} {subdirs : Subdirs} {dirs : List Text} {file : Text}
        → FileBelow subdirs dirs file
        → FileIn (dir files subdirs) dirs file

  pub data FileBelow : Subdirs → List Text → Text → Type 0 where
    first :
        {name : Text} {tree : Tree} {subdirs : Subdirs} {dirs : List Text} {file : Text}
        → FileIn tree dirs file
        → FileBelow (entry name tree subdirs) (name ∷ dirs) file
    later :
        {name : Text} {tree : Tree} {subdirs : Subdirs} {dirs : List Text} {file : Text}
        → FileBelow subdirs dirs file
        → FileBelow (entry name tree subdirs) dirs file

or_right : (a b : Bool) → b ≡ true → (a || b) ≡ true
or_right a b h = ground arith

-- The path of a directory below `top`.
abbrev pub path_below : ℕ → Text → List Text → Text
path_below sep top [] = top
path_below sep top (name ∷ dirs) = path_below sep (top ++ (sep ∷ name)) dirs

-- `e` is the entry of a source file among these files.
abbrev EntryOf : Text → List Text → Text → Type 0
EntryOf root files e =
    (file : Text) × (contains files file ≡ true)
    × (is_source_file file ≡ true)
    × (e ≡ new_file root file)

EntryOf-cons :
    (root : Text) (f : Text) (files : List Text) (e : Text)
    → EntryOf root files e
    → EntryOf root (f ∷ files) e
EntryOf-cons root f files e (file, there, source, same) = (file, ground arith, source, same)

contains-entries :
    (root e : Text) (files : List Text)
    → contains (entries root files) e ≡ true
    → EntryOf root files e
unfolding entries
contains-entries root e [] h = cc
contains-entries root e (f ∷ files) h = elim (Bool-cases (is_source_file f)) [
  | inl source ↦ elim (Bool-cases (text_eq e (new_file root f))) [
    | inl same ↦ (f, rw text_eq_refl, source, (text_eq_iff e _).0 same)
    | inr other ↦
        EntryOf-cons root f files e
          (contains-entries root e files (let h' = rw source at h in rw other at h'))
  ]
  | inr not_source ↦
      EntryOf-cons root f files e (contains-entries root e files (rw not_source at h))
]

entries-contains :
    (root file : Text) (files : List Text)
    → contains files file ≡ true
    → is_source_file file ≡ true
    → contains (entries root files) (new_file root file) ≡ true
unfolding entries
entries-contains root file [] h source = cc
entries-contains root file (f ∷ files) h source = elim (Bool-cases (text_eq file f)) [
  | inl same ↦ let e = (text_eq_iff file f).0 same in rw (← e) (rw source (rw text_eq_refl))
  | inr other ↦
      let rest = entries-contains root file files (rw other at h) source in
      elim (Bool-cases (is_source_file f)) [ inl p ↦ rw p (ground arith) | inr p ↦ rw p rest ]
]

module _ (sep : ℕ) where
  -- `e` is the entry of a source file below `top`.
  abbrev pub EntryBelow : Text → Tree → Text → Type 0
  EntryBelow top tree e =
      (dirs : List Text) × (file : Text) × FileIn tree dirs file
      × (is_source_file file ≡ true)
      × (e ≡ new_file (replace_sep sep (path_below sep top dirs)) file)

  abbrev EntryBelowAny : Text → Subdirs → Text → Type 0
  EntryBelowAny top subdirs e =
      (dirs : List Text) × (file : Text) × FileBelow subdirs dirs file
      × (is_source_file file ≡ true)
      × (e ≡ new_file (replace_sep sep (path_below sep top dirs)) file)

  mutual
    unfolding walk entries_walk

    contains-walk :
        (tree : Tree) (top e : Text)
        → contains (entries_walk sep (walk sep top tree)) e ≡ true
        → EntryBelow top tree e
    contains-walk (dir files subdirs) top e h =
        elim (Bool-cases (contains (entries (replace_sep sep top) files) e)) [
          | inl mine ↦
              let (file, there, source, same) =
                contains-entries (replace_sep sep top) e files mine in
              ([], file, here there, source, same)
          | inr other ↦
              let split = contains-append (entries (replace_sep sep top) files) _ e in
              let (dirs, file, there, source, same) =
                contains-walk_subdirs subdirs top e (rw other at (sym split ∙ h)) in
              (dirs, file, below there, source, same)
        ]

    contains-walk_subdirs :
        (subdirs : Subdirs) (top e : Text)
        → contains (entries_walk sep (walk_subdirs sep top subdirs)) e ≡ true
        → EntryBelowAny top subdirs e
    contains-walk_subdirs end top e h = cc
    contains-walk_subdirs (entry name tree subdirs) top e h =
        let inner = walk sep (top ++ (sep ∷ name)) tree in
        let outer = walk_subdirs sep top subdirs in
        let split =
          ap (λ l. contains l e) (entries_walk-append sep inner outer)
          ∙ contains-append (entries_walk sep inner) (entries_walk sep outer) e in
        elim (Bool-cases (contains (entries_walk sep inner) e)) [
          | inl mine ↦
              let (dirs, file, there, source, same) =
                contains-walk tree (top ++ (sep ∷ name)) e mine in
              (name ∷ dirs, file, first there, source, same)
          | inr other ↦
              let (dirs, file, there, source, same) =
                contains-walk_subdirs subdirs top e (rw other at (sym split ∙ h)) in
              (dirs, file, later there, source, same)
        ]

  mutual
    unfolding walk entries_walk

    walk-contains :
        (file : Text)
        → is_source_file file ≡ true
        → (top : Text) {tree : Tree} {dirs : List Text} → FileIn tree dirs file
        → contains
            (entries_walk sep (walk sep top tree))
            (new_file (replace_sep sep (path_below sep top dirs)) file)
          ≡ true
    walk-contains file source top (here {files} {subdirs} there) =
        rw (contains-append (entries (replace_sep sep top) files))
          (rw (entries-contains (replace_sep sep top) file files there source))
    walk-contains file source top (below {files} {subdirs} {dirs} there) =
        rw (contains-append (entries (replace_sep sep top) files))
          (or_right _ _ (walk_subdirs-contains file source top there))

    walk_subdirs-contains :
        (file : Text)
        → is_source_file file ≡ true
        → (top : Text) {subdirs : Subdirs} {dirs : List Text} → FileBelow subdirs dirs file
        → contains
            (entries_walk sep (walk_subdirs sep top subdirs))
            (new_file (replace_sep sep (path_below sep top dirs)) file)
          ≡ true
    walk_subdirs-contains file source top (first {name} {tree} {subdirs} {dirs} there) =
        rw (entries_walk-append sep (walk sep (top ++ (sep ∷ name)) tree)) (
          rw (contains-append (entries_walk sep (walk sep (top ++ (sep ∷ name)) tree)))
            (rw (walk-contains file source (top ++ (sep ∷ name)) there)))
    walk_subdirs-contains file source top (later {name} {tree} {subdirs} {dirs} there) =
        rw (entries_walk-append sep (walk sep (top ++ (sep ∷ name)) tree)) (
          rw (contains-append (entries_walk sep (walk sep (top ++ (sep ∷ name)) tree)))
            (or_right _ _ (walk_subdirs-contains file source top there)))

  -- The subdirectory of the project exists, and `e` is the entry of a source file in it.
  abbrev pub Listed : Option Tree → Text → Text → Type 0
  Listed none subdir e = ⊥
  Listed (some tree) subdir e = EntryBelow subdir tree e

  added_iff :
      (tree : Option Tree) (subdir e : Text)
      → (contains (added sep tree subdir) e ≡ true) ↔ Listed tree subdir e
  unfolding added
  added_iff none subdir e = (λ h. cc, λ h. elim h [ ])
  added_iff (some tree) subdir e = (
    contains-walk tree subdir e,
    λ (dirs, file, there, source, same). rw same (walk-contains file source subdir there),
  )

  -- The entries are sorted, and they are exactly those of the source files in `src` and `include`
  -- and in the directories below them.
  pub source_list_correct :
      (src include : Option Tree)
      → IsSorted (source_list sep src include)
        × ((e : Text)
            → (contains (source_list sep src include) e ≡ true)
              ↔ (Listed src (text "src") e ⊎ Listed include (text "include") e))
  unfolding source_list
  source_list_correct src include = (
    sort-IsSorted (found_files sep src include),
    λ e.
        let parts =
          contains-sort e (found_files sep src include)
          ∙ ap (λ l. contains l e)
              (add_source_files-added sep _ include (text "include")
                ∙ ap (λ l. l ++ added sep include (text "include"))
                    (add_source_files-added sep [] src (text "src")))
          ∙ contains-append (added sep src (text "src")) (added sep include (text "include")) e in
        let in_src = added_iff src (text "src") e in
        let in_include = added_iff include (text "include") e in
        (
          λ h. elim (Bool-cases (contains (added sep src (text "src")) e)) [
            | inl mine ↦ inl (in_src.0 mine)
            | inr other ↦ inr (in_include.0 (rw other at (sym parts ∙ h)))
          ],
          λ h. elim h [
            | inl l ↦ parts ∙ rw (in_src.1 l)
            | inr l ↦ parts ∙ or_right _ _ (in_include.1 l)
          ],
        ),
  )
