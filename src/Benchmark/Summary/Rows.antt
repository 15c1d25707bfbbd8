-- ===== src/Benchmark/Summary/Rows.antt =====
-- tools/benchmark.py: which results the summary lists.
use teide.Base.{
  ◌≡◌, refl, sym, ◌∙◌, ap, ◌+◌, Bool, false, not, List, [], ◌∷◌, ◌++◌, Option, none, some, map, All,
  All-append, keep, arith, length, append_assoc, append-nil, Bool-cases, inl, inr, if◌then◌else◌,
}
use teide.Base.Text.{Text, text}
use teide.Benchmark.Summary.{
  Floats, Entry, Exception, key_error, index_error, type_error, Result, ok, raised, ◌>>=◌, required,
  first, has_pvalue, test_names, lookup, rows_of, add_rows, summary_rows, headers, col_widths,
  table,
}
use teide.Benchmark.Summary.Alignment.{sum, table-lines}

abbrev pub first_cell : List Text → Text
first_cell [] = []
first_cell (c ∷ cells) = c

step_ok :
    {A B : Type 0} (r : Result A) (f : A → Result B) (b : B)
    → (r >>= f) ≡ ok b
    → (a : A) × (r ≡ ok a) × (f a ≡ ok b)
step_ok (ok a) f b e = (a, refl, e)
step_ok (raised x) f b e = cc

required_ok : {A : Type 0} (x : Exception) (o : Option A) (a : A) → required x o ≡ ok a → o ≡ some a
required_ok x none a e = cc
required_ok x (some b) a e = cc

ok_injective : {A : Type 0} (a b : A) → ok a ≡ ok b → a ≡ b
ok_injective a b e = cc

keep-cons :
    (p : Text → Bool) (x : Text) (xs : List Text)
    → keep p (x ∷ xs) ≡ (if p x then x ∷ [] else []) ++ keep p xs
keep-cons p x xs = ground arith

map-append : {A B : Type 0} (f : A → B) (xs ys : List A) → map f (xs ++ ys) ≡ map f xs ++ map f ys
map-append f [] ys = refl
map-append f (x ∷ xs) ys = ap (λ l. f x ∷ l) (map-append f xs ys)

module _ (fl : Floats) where
  -- The names of the entries with a p-value.
  abbrev pub is_tested : Entry fl → Bool
  is_tested entry = elim entry.utest [ none ↦ false | some utest ↦ has_pvalue fl utest ]

  abbrev pub tested : List (Entry fl) → List Text
  tested results = map (λ i. i.name) (keep is_tested results)

  -- The p-value of the first entry of this name is not above 0.1.
  abbrev pub significant_pvalue : Option fl.Float → Bool
  significant_pvalue none = false
  significant_pvalue (some pvalue) = not (fl.above_tenth pvalue)

  abbrev pub significant_entry : Option (Entry fl) → Bool
  significant_entry none = false
  significant_entry (some entry) = elim entry.utest [
    | none ↦ false
    | some utest ↦ significant_pvalue utest
  ]

  abbrev pub is_significant : List (Entry fl) → Text → Bool
  is_significant results name = significant_entry (lookup fl results name)

  test_names-tested :
      (results : List (Entry fl)) (names : List Text)
      → test_names fl results ≡ ok names
      → names ≡ tested results
  unfolding test_names
  test_names-tested [] names e = sym (ok_injective [] names e)
  test_names-tested (i ∷ results) names e =
      let (utest, here, e') = step_ok (required key_error i.utest) _ names e in
      let (more, rest, last) = step_ok (test_names fl results) _ names e' in
      let ih = test_names-tested results more rest in
      let given = required_ok key_error i.utest utest here in
      let shape = ok_injective _ names last in
      elim (Bool-cases (has_pvalue fl utest)) [
        | inl with_pvalue ↦ sym shape ∙ rw (given, with_pvalue) (ap (λ l. i.name ∷ l) ih)
        | inr without ↦ sym shape ∙ rw (given, without) ih
      ]

  -- What one round of the loop adds.
  abbrev Adds : List (Entry fl) → Text → List (List Text) → Type 0
  Adds results name more =
      All (λ r. length r ≡ 5) more
      × (map first_cell more ≡ (if is_significant results name then name ∷ [] else []))

  row-Adds :
      (results : List (Entry fl)) (name a b c d : Text) (more : List (List Text)) (entry : Entry fl)
      (utest : Option fl.Float) (pvalue : fl.Float)
      → lookup fl results name ≡ some entry
      → entry.utest ≡ some utest
      → utest ≡ some pvalue
      → (if fl.above_tenth pvalue then [] else (name ∷ a ∷ b ∷ c ∷ d ∷ []) ∷ []) ≡ more
      → Adds results name more
  row-Adds results name a b c d more entry utest pvalue found tested_ given shape =
      elim (Bool-cases (fl.above_tenth pvalue)) [
        | inl above ↦ rw (← shape, found, tested_, given, above) (tt, refl)
        | inr below ↦ rw (← shape, found, tested_, given, below) ((refl, tt), refl)
      ]

  rows_of-Adds :
      (results : List (Entry fl)) (name : Text) (more : List (List Text))
      → rows_of fl results name ≡ ok more
      → Adds results name more
  unfolding rows_of
  rows_of-Adds results name more e =
      let (entry, found, e1) = step_ok (required type_error (lookup fl results name)) _ more e in
      let (utest, tested_, e2) = step_ok (required key_error entry.utest) _ more e1 in
      let (pvalue, given, e3) = step_ok (required key_error utest) _ more e2 in
      let (mean, found', e4) =
        step_ok (required type_error (lookup fl results (name ++ text "_mean"))) _ more e3 in
      let (all_measurements, there, e5) =
        step_ok (required key_error mean.measurements) _ more e4 in
      let (measurement, top, e6) =
        step_ok (required index_error (first all_measurements)) _ more e5 in
      row-Adds results name _ _ _ _ more entry utest pvalue
        (required_ok type_error (lookup fl results name) entry found)
        (required_ok key_error entry.utest utest tested_) (required_ok key_error utest pvalue given)
        (ok_injective _ more e6)

  IsTable : List (Entry fl) → List Text → List (List Text) → List (List Text) → Type 0
  IsTable results names before rows =
      All (λ r. length r ≡ 5) rows
      × (map first_cell rows ≡ map first_cell before ++ keep (is_significant results) names)

  add_rows-IsTable :
      (results : List (Entry fl)) (names : List Text) (before rows : List (List Text))
      → All (λ r. length r ≡ 5) before
      → add_rows fl results names before ≡ ok rows
      → IsTable results names before rows
  unfolding add_rows IsTable
  add_rows-IsTable results [] before rows five e =
      let same = ok_injective before rows e in
      rw (← same) (five, sym (append-nil (map first_cell before)))
  add_rows-IsTable results (name ∷ names) before rows five e =
      let (more, added, e') = step_ok (rows_of fl results name) _ rows e in
      let (five', head) = rows_of-Adds results name more added in
      let (all_five, rest) =
        add_rows-IsTable results names (before ++ more) rows
          (All-append (λ r. length r ≡ 5) before more five five') e' in
      (
        all_five,
        rest
            ∙ ap (λ l. l ++ keep (is_significant results) names) (map-append first_cell before more)
            ∙ append_assoc (map first_cell before) (map first_cell more)
                (keep (is_significant results) names)
            ∙ ap (λ l. map first_cell before ++ l)
                (ap (λ l. l ++ keep (is_significant results) names) head
                  ∙ sym (keep-cons (is_significant results) name names)),
      )

  -- The rows of the summary are the tests with a p-value of at most 0.1, in the order of the results;
  -- and all lines of their table have the same length.
  pub summary_rows_lem :
      (results : List (Entry fl)) (rows : List (List Text))
      → summary_rows fl results ≡ ok rows
      → (map first_cell rows ≡ keep (is_significant results) (tested results))
        × All (λ line. length line ≡ sum (col_widths headers rows) + 17) (table rows)
  unfolding summary_rows IsTable
  summary_rows_lem results rows e =
      let (names, found, e') = step_ok (test_names fl results) _ rows e in
      let (five, firsts) = add_rows-IsTable results names [] rows tt e' in
      (
        firsts ∙ ap (keep (is_significant results)) (test_names-tested results names found),
        table-lines rows five,
      )
