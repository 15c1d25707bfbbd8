-- ===== src/GenFilelists/Listing/Reorder.antt =====
-- tools/gen_filelists.py: the list of entries does not depend on the order in which the system lists
-- the directories.
use mathlib.Core.List.{Perm, Permᴰ, Perm-prop, perm_append_comm}
use mathlib.Core.List.Perm
use mathlib.Core.Logic.{∥∥₁_elim}
use teide.Base.{
  ◌≡◌, refl, sym, ◌∙◌, ap, ℕ, List, [], ◌∷◌, ◌++◌, append-nil, append_assoc, if◌then◌else◌, Option,
  none, some, Bool-cases, inl, inr,
}
use teide.Base.Text.{Text, text}
use teide.GenFilelists.Paths.{is_source_file}
use teide.GenFilelists.Listing.Sorting.{sort-perm}
use teide.GenFilelists.Listing.{
  Tree, Subdirs, dir, end, entry, walk, walk_subdirs, replace_sep, new_file, add_files, add_walk,
  add_source_files, found_files, source_list,
}

-- The same directory, listed in two orders.
mutual
  pub data SameTree : Tree → Tree → Type 0 where
    same_dir :
        {files files' : List Text} {subdirs subdirs' : Subdirs}
        → Perm files files'
        → SameSubdirs subdirs subdirs'
        → SameTree (dir files subdirs) (dir files' subdirs')

  pub data SameSubdirs : Subdirs → Subdirs → Type 0 where
    same_end : SameSubdirs end end
    same_entry :
        (name : Text) {tree tree' : Tree} {subdirs subdirs' : Subdirs}
        → SameTree tree tree'
        → SameSubdirs subdirs subdirs'
        → SameSubdirs (entry name tree subdirs) (entry name tree' subdirs')
    swapped :
        (name name' : Text) (tree tree' : Tree) (subdirs : Subdirs)
        → SameSubdirs
            (entry name tree (entry name' tree' subdirs))
            (entry name' tree' (entry name tree subdirs))
    chain : {a b c : Subdirs} → SameSubdirs a b → SameSubdirs b c → SameSubdirs a c

-- The entries of one directory.
unfoldable pub entries : Text → List Text → List Text
entries root [] = []
entries root (file ∷ files) =
    if is_source_file file then new_file root file ∷ entries root files else entries root files

add_files-entries :
    (root : Text) (files acc : List Text) → add_files root files acc ≡ acc ++ entries root files
unfolding add_files entries
add_files-entries root [] acc = sym (append-nil acc)
add_files-entries root (file ∷ files) acc = elim (Bool-cases (is_source_file file)) [
  | inl source ↦ rw source (
      add_files-entries root files (acc ++ (new_file root file ∷ []))
      ∙ append_assoc acc (new_file root file ∷ []) (entries root files))
  | inr other ↦ rw other (add_files-entries root files acc)
]

module _ (sep : ℕ) where
  unfoldable pub entries_walk : List (Text × List Text) → List Text
  entries_walk [] = []
  entries_walk ((root, files) ∷ rest) = entries (replace_sep sep root) files ++ entries_walk rest

  add_walk-entries :
      (w : List (Text × List Text)) (acc : List Text) → add_walk sep w acc ≡ acc ++ entries_walk w
  unfolding add_walk entries_walk
  add_walk-entries [] acc = sym (append-nil acc)
  add_walk-entries ((root, files) ∷ rest) acc =
      add_walk-entries rest (add_files (replace_sep sep root) files acc)
      ∙ ap (λ l. l ++ entries_walk rest) (add_files-entries (replace_sep sep root) files acc)
      ∙ append_assoc acc (entries (replace_sep sep root) files) (entries_walk rest)

  pub entries_walk-append :
      (v w : List (Text × List Text)) → entries_walk (v ++ w) ≡ entries_walk v ++ entries_walk w
  unfolding entries_walk
  entries_walk-append [] w = refl
  entries_walk-append ((root, files) ∷ v) w =
      rw (entries_walk-append v w) (
        sym (append_assoc (entries (replace_sep sep root) files) (entries_walk v) (entries_walk w)))

-- A proof by the derivation of the permutation, at the entries of one directory.
entries-permᴰ :
    (root : Text) (files files' : List Text)
    → Permᴰ files files'
    → Perm (entries root files) (entries root files')
unfolding entries
entries-permᴰ root _ _ Permᴰ.nil = Perm.refl []
entries-permᴰ root (x ∷ xs) (y ∷ ys) (Permᴰ.cons e p) =
    rw (← e) (elim (Bool-cases (is_source_file x)) [
      | inl source ↦ rw source (Perm.cons (new_file root x) (entries-permᴰ root xs ys p))
      | inr other ↦ rw other (entries-permᴰ root xs ys p)
    ])
entries-permᴰ root (a ∷ b ∷ l) (a' ∷ b' ∷ _) (Permᴰ.swap e f) =
    rw (← e, ← f)
      (elim (Bool-cases (is_source_file a)) [
        | inl p ↦ elim (Bool-cases (is_source_file b)) [
          | inl q ↦ rw (p, q) (Perm.swap (new_file root b) (new_file root a) (entries root l))
          | inr q ↦ rw (p, q) (Perm.refl _)
        ]
        | inr p ↦ elim (Bool-cases (is_source_file b)) [
          | inl q ↦ rw (p, q) (Perm.refl _)
          | inr q ↦ rw (p, q) (Perm.refl _)
        ]
      ])
entries-permᴰ root xs zs (Permᴰ.trans {l₂ = ys} p q) =
    Perm.trans (entries-permᴰ root xs ys p) (entries-permᴰ root ys zs q)

entries-perm :
    (root : Text) (files files' : List Text)
    → Perm files files'
    → Perm (entries root files) (entries root files')
entries-perm root files files' p = ∥∥₁_elim p Perm-prop (entries-permᴰ root files files')

perm_left_comm : (xs ys zs : List Text) → Perm (xs ++ (ys ++ zs)) (ys ++ (xs ++ zs))
perm_left_comm xs ys zs =
    rw (← append_assoc xs ys zs, ← append_assoc ys xs zs)
      (Perm.append_right zs (perm_append_comm xs ys))

module _ (sep : ℕ) where
  mutual
    unfolding walk entries_walk

    walk-perm :
        (top : Text) {tree tree' : Tree}
        → SameTree tree tree'
        → Perm (entries_walk sep (walk sep top tree)) (entries_walk sep (walk sep top tree'))
    walk-perm top (same_dir {files} {files'} {subdirs} {subdirs'} p s) =
        Perm.trans (Perm.append_right _ (entries-perm (replace_sep sep top) files files' p))
          (Perm.append_left _ (walk_subdirs-perm top s))

    walk_subdirs-perm :
        (top : Text) {subdirs subdirs' : Subdirs}
        → SameSubdirs subdirs subdirs'
        → Perm
            (entries_walk sep (walk_subdirs sep top subdirs))
            (entries_walk sep (walk_subdirs sep top subdirs'))
    walk_subdirs-perm top same_end = Perm.refl []
    walk_subdirs-perm top (same_entry name t s) =
        simp (entries_walk-append sep)
          (Perm.append (walk-perm (top ++ (sep ∷ name)) t) (walk_subdirs-perm top s))
    walk_subdirs-perm top (swapped name name' tree tree' subdirs) = simp (entries_walk-append sep) (
        perm_left_comm (entries_walk sep (walk sep (top ++ (sep ∷ name)) tree))
          (entries_walk sep (walk sep (top ++ (sep ∷ name')) tree'))
          (entries_walk sep (walk_subdirs sep top subdirs)))
    walk_subdirs-perm top (chain p q) =
        Perm.trans (walk_subdirs-perm top p) (walk_subdirs-perm top q)

-- What one subdirectory of the project adds.
unfoldable pub added : ℕ → Option Tree → Text → List Text
added sep none subdir = []
added sep (some tree) subdir = entries_walk sep (walk sep subdir tree)

pub add_source_files-added :
    (sep : ℕ) (acc : List Text) (tree : Option Tree) (subdir : Text)
    → add_source_files sep acc tree subdir ≡ acc ++ added sep tree subdir
unfolding add_source_files added
add_source_files-added sep acc none subdir = sym (append-nil acc)
add_source_files-added sep acc (some tree) subdir = add_walk-entries sep (walk sep subdir tree) acc

-- Both are missing, or both hold the same.
abbrev pub SameSubdir : Option Tree → Option Tree → Type 0
SameSubdir none none = Unit
SameSubdir none (some tree') = ⊥
SameSubdir (some tree) none = ⊥
SameSubdir (some tree) (some tree') = SameTree tree tree'

added-perm :
    (sep : ℕ) (tree tree' : Option Tree) (subdir : Text)
    → SameSubdir tree tree'
    → Perm (added sep tree subdir) (added sep tree' subdir)
unfolding added
added-perm sep none none subdir h = Perm.refl []
added-perm sep none (some tree') subdir h = elim h [ ]
added-perm sep (some tree) none subdir h = elim h [ ]
added-perm sep (some tree) (some tree') subdir h = walk-perm sep subdir h

-- The sorted list of entries does not depend on the order in which the system lists the files and
-- the subdirectories of any directory of the project.
pub source_list-SameTree :
    (sep : ℕ) (src src' include include' : Option Tree)
    → SameSubdir src src'
    → SameSubdir include include'
    → source_list sep src include ≡ source_list sep src' include'
unfolding source_list
source_list-SameTree sep src src' include include' p q =
    sort-perm (found_files sep src include) (found_files sep src' include') (
      simp (add_source_files-added) (
        Perm.append (added-perm sep src src' (text "src") p)
          (added-perm sep include include' (text "include") q)))
