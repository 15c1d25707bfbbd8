-- ===== src/Vkex/Target/Regex.antt =====
-- tools/vkex/genvkex.py: what the patterns match, by `re.match`.
use teide.Base.{
  ◌≡◌, refl, ◌∙◌, ap, ℕ, Bool, true, false, ◌||◌, List, [], ◌∷◌, ◌++◌, ◌==◌, Option, none, some,
  map, arith, append_assoc, Bool-cases, inl, inr, if◌then◌else◌,
}
use teide.Base.Strip.{onto_first}
use teide.Base.Text.{Text, text, text_eq, starts_with, contains}
use teide.GenFilelists.Listing.{join}
use teide.Vkex.Names.{drop}
use teide.Vkex.Target.{is_special, re_escape, make_re_string}

abbrev add : ℕ → Option (List Text) → Option (List Text)
add c none = none
add c (some parts) = some (onto_first c parts)

abbrev next : Option (List Text) → Option (List Text)
next none = none
next (some parts) = some ([] ∷ parts)

-- The texts that the rest of an alternation matches, up to its bracket and the end of the pattern. Of the
-- patterns only those that consist of plain and of escaped characters are read.
unfoldable pub inside : Bool → Text → Option (List Text)
inside escaped [] = none
inside true (c ∷ p) = if is_special c then add c (inside false p) else none
inside false (c ∷ p) = elim (c == b'\\') [
  | true ↦ inside true p
  | false ↦
      if c == b'|'
      then next (inside false p)
      else if c == b')'
      then (if text_eq p (text "$") then some ([] ∷ []) else none)
      else if is_special c
      then none
      else add c (inside false p)
]

abbrev ended : Text → Text
ended s = s ++ text "\n"

-- The end of a pattern is before a line break that ends the text as well.
abbrev pub is_one_of : List Text → Text → Bool
is_one_of parts name = contains parts name || contains (map ended parts) name

abbrev decide_by : Text → Option (List Text) → Option Bool
decide_by name none = none
decide_by name (some parts) = some (is_one_of parts name)

-- Whether `re.match` finds the pattern at the start of the text, of a pattern that is read.
unfoldable pub matches : Text → Text → Option Bool
unfolding inside
matches pattern name =
    if text_eq pattern (text ".*")
    then some true
    else if starts_with pattern (text "^(")
    then decide_by name (inside false (drop 2 pattern))
    else none

abbrev onto : Text → Option (List Text) → Option (List Text)
onto [] parts = parts
onto (c ∷ s) parts = add c (onto s parts)

onto-next : (s : Text) (parts : List Text) → onto s (next (some parts)) ≡ some (s ∷ parts)
onto-next [] parts = refl
onto-next (c ∷ s) parts = rw (onto-next s parts) refl

inside-plain :
    (c : ℕ) (p : Text) → is_special c ≡ false → inside false (c ∷ p) ≡ add c (inside false p)
unfolding inside
inside-plain c p plain =
    let a : (c == b'\\') ≡ false = ground arith in
    let b : (c == b'|') ≡ false = ground arith in
    let d : (c == b')') ≡ false = ground arith in rw (inside, a, b, d, plain) refl

inside-re_escape : (s rest : Text) → inside false (re_escape s ++ rest) ≡ onto s (inside false rest)
unfolding re_escape inside
inside-re_escape [] rest = refl
inside-re_escape (c ∷ s) rest = elim (Bool-cases (is_special c)) [
  | inl special ↦ rw (re_escape, special, inside, special, inside-re_escape s rest) refl
  | inr plain ↦
      rw (re_escape, plain, inside-plain c (re_escape s ++ rest) plain, inside-re_escape s rest)
        refl
]

inside-join :
    (s : Text) (strings : List Text)
    → inside false (join (text "|") (map re_escape (s ∷ strings)) ++ text ")$") ≡ some (s ∷ strings)
unfolding join inside text_eq
inside-join s [] = inside-re_escape s (text ")$") ∙ onto-next s []
inside-join s (t ∷ strings) =
    ap (inside false) (
      append_assoc (re_escape s) (text "|" ++ join (text "|") (map re_escape (t ∷ strings)))
        (text ")$"))
    ∙ inside-re_escape s _
    ∙ ap (λ o. onto s (next o)) (inside-join t strings)
    ∙ onto-next s (t ∷ strings)

-- Some pattern is made of at least one text, and it matches what is one of them.
pub make_re_string-matches :
    (s : Text) (strings : List Text) (default : Option Text)
    → (p : Text) × (make_re_string (s ∷ strings) default false ≡ some p)
      × ((name : Text) → matches p name ≡ some (is_one_of (s ∷ strings) name))
unfolding make_re_string matches starts_with text_eq
make_re_string-matches s strings default = (
  text "^(" ++ (join (text "|") (map re_escape (s ∷ strings)) ++ text ")$"),
  refl,
  λ name. ap (decide_by name) (inside-join s strings),
)
