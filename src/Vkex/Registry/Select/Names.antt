-- ===== src/Vkex/Registry/Select/Names.antt =====
-- tools/vkex/reg.py: the names that `apiGen` keeps, and the order by number.
use teide.Base.{
  ◌≡◌, refl, ◌∙◌, leb, Bool, true, ◌||◌, List, [], ◌∷◌, ◌++◌, keep, map, arith, Bool-cases, inl,
  inr,
}
use teide.Base.Text.{Text, text_eq, text_eq_iff, contains}
use teide.Vkex.Registry.Select.{
  FeatureInfo, Selected, set_feature, add_name, insert_by_number, sort_by_number,
}

abbrev pub names : List FeatureInfo → List Text
names = map (λ x. x.name)

abbrev pub keys : List (Text × Selected) → List Text
keys = map (λ x. x.0)

-- No extension is behind one of a higher number.
abbrev pub IsAscending : List FeatureInfo → Type 0
IsAscending [] = Unit {0}
IsAscending (x ∷ []) = Unit {0}
IsAscending (x ∷ y ∷ ys) = (leb x.number y.number ≡ true) × IsAscending (y ∷ ys)

pub insert_by_number-IsAscending :
    (x : FeatureInfo) (ys : List FeatureInfo) → IsAscending ys → IsAscending (insert_by_number x ys)
unfolding insert_by_number
insert_by_number-IsAscending x [] h = tt
insert_by_number-IsAscending x (y ∷ []) h = elim (Bool-cases (leb x.number y.number)) [
  | inl before ↦ rw (insert_by_number, before) (before, tt)
  | inr behind ↦ rw (insert_by_number, behind) (ground arith, tt)
]
insert_by_number-IsAscending x (y ∷ z ∷ zs) (first, h) =
    let rest = insert_by_number-IsAscending x (z ∷ zs) h in
    elim (Bool-cases (leb x.number y.number)) [
      | inl before ↦ rw (insert_by_number, before) (before, (first, h))
      | inr behind ↦ elim (Bool-cases (leb x.number z.number)) [
        | inl here ↦ rw (insert_by_number, behind, here) (ground arith, (here, h))
        | inr there ↦
            let rest' = rw (insert_by_number, there) at rest in
            rw (insert_by_number, behind, there) (first, rest')
      ]
    ]

pub sort_by_number-IsAscending : (xs : List FeatureInfo) → IsAscending (sort_by_number xs)
unfolding sort_by_number
sort_by_number-IsAscending [] = tt
sort_by_number-IsAscending (x ∷ xs) =
    insert_by_number-IsAscending x (sort_by_number xs) (sort_by_number-IsAscending xs)

pub contains-append_one :
    (xs : List Text) (x n : Text) → contains (xs ++ (x ∷ [])) n ≡ (text_eq n x || contains xs n)
contains-append_one [] x n = refl
contains-append_one (y ∷ xs) x n = ground (arith, contains-append_one xs x n)

module _ (p : FeatureInfo → Bool) (n : Text) where
  contains-insert_by_number :
      (x : FeatureInfo) (xs : List FeatureInfo)
      → contains (names (keep p (insert_by_number x xs))) n ≡ contains (names (keep p (x ∷ xs))) n
  unfolding insert_by_number
  contains-insert_by_number x [] = refl
  contains-insert_by_number x (y ∷ xs) = ground (arith, contains-insert_by_number x xs)

  pub contains-sort_by_number :
      (xs : List FeatureInfo)
      → contains (names (keep p (sort_by_number xs))) n ≡ contains (names (keep p xs)) n
  unfolding sort_by_number
  contains-sort_by_number [] = refl
  contains-sort_by_number (x ∷ xs) =
      contains-insert_by_number x (sort_by_number xs) ∙ ground (arith, contains-sort_by_number xs)

pub contains-set_feature :
    (fs : List (Text × Selected)) (name n : Text) (x : Selected)
    → contains (keys (set_feature fs name x)) n ≡ (text_eq n name || contains (keys fs) n)
unfolding set_feature
contains-set_feature [] name n x = refl
contains-set_feature ((other, y) ∷ fs) name n x = ground (
  arith,
  contains-set_feature fs name n x,
  text_eq_iff other name,
  text_eq_iff n other,
  text_eq_iff n name,
)

pub contains-add_name :
    (xs : List Text) (x n : Text) → contains (add_name xs x) n ≡ (text_eq n x || contains xs n)
contains-add_name xs x n = elim (Bool-cases (contains xs x)) [
  | inl there ↦ elim (Bool-cases (text_eq n x)) [
    | inl same ↦ let is = (text_eq_iff n x).0 same in rw (there, same, is) there
    | inr other ↦ rw (there, other) refl
  ]
  | inr fresh ↦ rw fresh (contains-append_one xs x n)
]
