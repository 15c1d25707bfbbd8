-- ===== src/UpdateReferences/Agreement.antt =====
-- tools/update_references.py: what holds when the references were updated.
use mathlib.Core.List.{append_cancel_right}
use mathlib.Core.Option.{some-injective}
use teide.Base.{
  ◌≡◌, refl, sym, ◌∙◌, ap, true, false, List, [], ◌∷◌, ◌++◌, Option, some, arith, Bool-cases,
  Option-cases, inl, inr, if◌then◌else◌,
}
use teide.Base.Text.{Text, text, text_eq, text_eq_iff, text_eq_refl, contains}
use teide.UpdateReferences.{
  Dir, remove_suffix, is_some, get_or, lookup, out_suffix, ref_name, updated, copy, copy_all,
}

remove_suffix-some :
    (s suffix stem : Text) → remove_suffix s suffix ≡ some stem → s ≡ stem ++ suffix
unfolding remove_suffix
remove_suffix-some [] [] stem e = cc
remove_suffix-some [] (d ∷ suffix) stem e = cc
remove_suffix-some (c ∷ s) suffix stem e = elim (Bool-cases (text_eq (c ∷ s) suffix)) [
  | inl same ↦
      let empty : ◌≡◌ {A = Option Text} (some []) (some stem) = rw same at e in
      rw (← some-injective [] stem empty) ((text_eq_iff (c ∷ s) suffix).0 same)
  | inr other ↦ elim (Option-cases (remove_suffix s suffix)) [
    | inl lost ↦ let e' = rw other at e in cc (rw lost at e')
    | inr (front, found) ↦
        let e' = rw other at e in
        let shape : ◌≡◌ {A = Option Text} (some (c ∷ front)) (some stem) = rw found at e' in
        rw (← some-injective (c ∷ front) stem shape)
          (ap (λ l. c ∷ l) (remove_suffix-some s suffix front found))
  ]
]

abbrev pub IsImage : Text → Type 0
IsImage name = is_some (remove_suffix name out_suffix) ≡ true

image_stem :
    (name : Text) → IsImage name → (stem : Text) × (remove_suffix name out_suffix ≡ some stem)
image_stem name h = elim (Option-cases (remove_suffix name out_suffix)) [
  | inl lost ↦ cc (rw lost at h)
  | inr found ↦ found
]

ref_name-injective : (a b : Text) → IsImage a → IsImage b → ref_name a ≡ ref_name b → a ≡ b
unfolding ref_name
ref_name-injective a b p q e =
    let (s, found) = image_stem a p in
    let (t, found') = image_stem b q in
    let parts : s ++ text ".png" ≡ t ++ text ".png" =
      sym (ap (λ o. get_or a o ++ text ".png") found)
      ∙ e
      ∙ ap (λ o. get_or b o ++ text ".png") found' in
    let stems = append_cancel_right s t (text ".png") parts in
    remove_suffix-some a out_suffix s found
    ∙ ap (λ l. l ++ out_suffix) stems
    ∙ sym (remove_suffix-some b out_suffix t found')

lookup-copy :
    (content dest name : Text) (dir : Dir)
    → lookup (copy content dest dir) name
      ≡ (if text_eq dest name then some content else lookup dir name)
unfolding lookup copy
lookup-copy content dest name [] = refl
lookup-copy content dest name ((other, old) ∷ dir) = ground (
  arith,
  lookup-copy content dest name dir,
  text_eq_iff other dest,
  text_eq_iff other name,
  text_eq_iff dest name,
)

skip_name :
    (name n : Text) (names : List Text)
    → contains names name ≡ true
    → contains (n ∷ names) name ≡ true
skip_name name n names h = ground arith

-- The names whose references are written.
abbrev pub Writes : List Text → Text → Type 0
Writes names dest = (name : Text) × (contains names name ≡ true) × (ref_name name ≡ dest)

pub updated-injective : (a b : Dir) → updated a ≡ updated b → a ≡ b
updated-injective a b e = cc

copy_all-cons :
    (first : Dir) (n : Text) (names : List Text) (references after : Dir)
    → copy_all first (n ∷ names) references ≡ updated after
    → (c : Text) × (lookup first n ≡ some c)
      × (copy_all first names (copy c (ref_name n) references) ≡ updated after)
unfolding copy_all
copy_all-cons first n names references after e = elim (Option-cases (lookup first n)) [
  | inl lost ↦ cc (rw (lost, copy_all) at e)
  | inr (c, found) ↦ (c, found, (rw (found, copy_all) at e))
]

pub copy_all-others :
    (first : Dir) (names : List Text) (references after : Dir) (other : Text)
    → copy_all first names references ≡ updated after
    → ¬ Writes names other
    → lookup after other ≡ lookup references other
unfolding copy_all
copy_all-others first [] references after other e h =
    ap (λ d. lookup d other) (sym (updated-injective references after e))
copy_all-others first (n ∷ names) references after other e h =
    let (c, found, e') = copy_all-cons first n names references after e in
    let later =
      copy_all-others first names (copy c (ref_name n) references) after other e'
        (λ (m, there, same). h (m, skip_name m n names there, same)) in
    let mine : text_eq (ref_name n) other ≡ false = elim (Bool-cases (text_eq (ref_name n) other)) [
      | inl same ↦ absurd (h (n, rw text_eq_refl, (text_eq_iff (ref_name n) other).0 same))
      | inr apart ↦ apart
    ] in
    later ∙ rw (lookup-copy c (ref_name n) other references, mine)

pub copy_all-copies :
    (first : Dir) (names : List Text) (references after : Dir)
    → copy_all first names references ≡ updated after
    → ((n : Text) → contains names n ≡ true → IsImage n)
    → (name : Text) → contains names name ≡ true
    → (c : Text) × (lookup first name ≡ some c) × (lookup after (ref_name name) ≡ some c)
copy_all-copies first [] references after e images name there = cc
copy_all-copies first (n ∷ names) references after e images name there =
    let (c, found, e') = copy_all-cons first n names references after e in
    let later =
      copy_all-copies first names (copy c (ref_name n) references) after e'
        (λ m h. images m (skip_name m n names h)) in
    elim (Bool-cases (contains names name)) [
      | inl again ↦ later name again
      | inr last ↦
          let same : name ≡ n = (text_eq_iff name n).0 (ground arith) in
          let is_image = images n (rw text_eq_refl) in
          (
            c,
            rw same found,
            rw same (
                copy_all-others first names (copy c (ref_name n) references) after (ref_name n) e'
                  (λ (m, h, equal).
                    let twice =
                      ref_name-injective m n (images m (skip_name m n names h)) is_image equal in
                    cc (rw (← twice) at (rw same at last)))
                ∙ rw (lookup-copy c (ref_name n) (ref_name n) references, text_eq_refl)),
          )
    ]
