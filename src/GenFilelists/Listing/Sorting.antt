-- ===== src/GenFilelists/Listing/Sorting.antt =====
-- tools/gen_filelists.py: what `source_files.sort()` gives.
use mathlib.Core.List.{Perm, Permᴰ}
use mathlib.Core.Logic.{∥∥₁_elim}
use native.Mathlib.Nat.{ℕ_set}
use teide.Base.{
  ◌≡◌, refl, ◌∙◌, true, List, [], ◌∷◌, arith, Bool-cases, inl, inr, All, ◌||◌, Bool-cases, inl, inr,
}
use teide.Base.Text.{
  Text, text_eq, contains, text_le, text_le_total, text_le_antisymm, text_le_trans,
}
use teide.GenFilelists.Listing.{insert, sort}

insert_comm : (s t : Text) (l : List Text) → insert s (insert t l) ≡ insert t (insert s l)
unfolding insert
insert_comm s t [] = ground (arith, text_le_total s t, text_le_total t s, text_le_antisymm s t)
insert_comm s t (u ∷ l) = ground (
  arith,
  insert_comm s t l,
  text_le_total s t,
  text_le_total t s,
  text_le_antisymm s t,
  text_le_trans s t u,
  text_le_trans t s u,
  text_le_total s u,
  text_le_total t u,
)

sort-permᴰ : (xs ys : List Text) → Permᴰ xs ys → sort xs ≡ sort ys
unfolding sort
sort-permᴰ _ _ Permᴰ.nil = refl
sort-permᴰ (x ∷ xs) (y ∷ ys) (Permᴰ.cons e p) = cc (sort-permᴰ xs ys p)
sort-permᴰ (a ∷ b ∷ l) (a' ∷ b' ∷ _) (Permᴰ.swap e f) = cc (insert_comm a b (sort l))
sort-permᴰ xs zs (Permᴰ.trans {l₂ = ys} p q) = sort-permᴰ xs ys p ∙ sort-permᴰ ys zs q

List-set : IsSet (List Text)
List-set = hlevel ℕ_set

pub sort-perm : (xs ys : List Text) → Perm xs ys → sort xs ≡ sort ys
sort-perm xs ys p = ∥∥₁_elim p (List-set (sort xs) (sort ys)) (sort-permᴰ xs ys)

-- Each text stands before those that are not less.
abbrev pub IsSorted : List Text → Type 0
IsSorted [] = Unit
IsSorted (s ∷ ts) = All (λ t. text_le s t ≡ true) ts × IsSorted ts

All-le :
    (s t : Text) (ts : List Text)
    → text_le s t ≡ true
    → All (λ u. text_le t u ≡ true) ts
    → All (λ u. text_le s u ≡ true) ts
All-le s t [] h k = tt
All-le s t (u ∷ ts) h k = (text_le_trans s t u h k.0, All-le s t ts h k.1)

All-insert : (P : Text → Type 0) (s : Text) (ts : List Text) → P s → All P ts → All P (insert s ts)
unfolding insert
All-insert P s [] p h = (p, tt)
All-insert P s (t ∷ ts) p h = elim (Bool-cases (text_le s t)) [
  | inl low ↦ rw low (p, h)
  | inr high ↦ rw high (h.0, All-insert P s ts p h.1)
]

insert-IsSorted : (s : Text) (ts : List Text) → IsSorted ts → IsSorted (insert s ts)
unfolding insert
insert-IsSorted s [] h = (tt, tt)
insert-IsSorted s (t ∷ ts) h = elim (Bool-cases (text_le s t)) [
  | inl low ↦ rw low ((low, All-le s t ts low h.0), h)
  | inr high ↦ rw high (All-insert _ s ts (text_le_total s t high) h.0, insert-IsSorted s ts h.1)
]

pub sort-IsSorted : (xs : List Text) → IsSorted (sort xs)
unfolding sort
sort-IsSorted [] = tt
sort-IsSorted (s ∷ xs) = insert-IsSorted s (sort xs) (sort-IsSorted xs)

contains-insert :
    (e s : Text) (ts : List Text) → contains (insert s ts) e ≡ (text_eq e s || contains ts e)
unfolding insert
contains-insert e s [] = refl
contains-insert e s (t ∷ ts) = ground (arith, contains-insert e s ts)

pub contains-sort : (e : Text) (xs : List Text) → contains (sort xs) e ≡ contains xs e
unfolding sort
contains-sort e [] = refl
contains-sort e (s ∷ xs) = rw (contains-insert e s (sort xs), contains-sort e xs)
