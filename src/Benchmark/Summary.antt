-- ===== src/Benchmark/Summary.antt =====
-- tools/benchmark.py, the last part of benchmark_compare: the significant results as a table.
pub mod Rows
pub mod Alignment
mod Examples
use teide.Base.{
  ◌≡◌, ℕ, zero, suc, ◌+◌, ◌-◌, ◌/◌, ◌%◌, ltb, leb, ◌==◌, Bool, true, false, not, List, [], ◌∷◌,
  ◌++◌, Option, none, some, map, length, replicate, if◌then◌else◌,
}
use mathlib.Core.List.{flatten}
use teide.Base.Text.{Text, text, text_eq}
use teide.GenFilelists.Listing.{join}

-- What the script uses of floats.
pub record Floats : Type 1 where
  pub Float : Type 0
  -- `x > 0.1` and `x < 0`
  pub above_tenth : Float → Bool
  pub negative : Float → Bool
  -- `abs(x * 100)` and `x / 1000`
  pub abs_percent : Float → Float
  pub per_1000 : Float → Float
  -- `f'{x:.{precision}f}'`
  pub fixed : Float → ℕ → Text

pub data Exception : Type 0 where
  key_error : Exception
  index_error : Exception
  type_error : Exception

pub data Result (A : Type 0) : Type 0 where
  ok : A → Result A
  raised : Exception → Result A

infixl 5 ◌>>=◌
abbrev pub ◌>>=◌ : {A B : Type 0} → Result A → (A → Result B) → Result B
ok a >>= f = f a
raised e >>= f = raised e

abbrev pub required : {A : Type 0} → Exception → Option A → Result A
required e none = raised e
required e (some a) = ok a

abbrev pub first : {A : Type 0} → List A → Option A
first [] = none
first (x ∷ xs) = some x

-- `'{}'.format(n)`; the first argument is fuel.
abbrev decimal_from : ℕ → ℕ → Text
decimal_from zero n = []
decimal_from (suc fuel) n =
    let rest = decimal_from fuel (n / 10) in
    if ltb n 10 then (b'0' + n) ∷ [] else rest ++ ((b'0' + n % 10) ∷ [])

unfoldable pub decimal : ℕ → Text
decimal n = decimal_from (suc n) n

module _ (fl : Floats) where
  pub record Measurement : Type 0 where
    pub time : fl.Float
    pub real_time : fl.Float
    pub real_time_other : fl.Float

  -- An entry of the results. The keys `utest` and, in it, `time_pvalue` may be missing.
  pub record Entry : Type 0 where
    pub name : Text
    pub utest : Option (Option fl.Float)
    pub measurements : Option (List Measurement)

  -- `'time_pvalue' in utest`
  abbrev pub has_pvalue : Option fl.Float → Bool
  has_pvalue none = false
  has_pvalue (some pvalue) = true

  unfoldable pub test_names : List Entry → Result (List Text)
  test_names [] = ok []
  test_names (i ∷ results) = required key_error i.utest >>= λ utest.
      test_names results >>= λ names. ok (if has_pvalue utest then i.name ∷ names else names)

  unfoldable pub lookup : List Entry → Text → Option Entry
  lookup [] name = none
  lookup (x ∷ results) name = if text_eq x.name name then some x else lookup results name

  unfoldable pub to_string : fl.Float → ℕ → Text
  to_string f precision = fl.fixed f precision

  unfoldable pub result_text : fl.Float → Text
  result_text time =
      let faster = fl.negative time in
      (if faster then text "🟢" else text "🔴")
      ++ (text " "
          ++ (fl.fixed (fl.abs_percent time) 2
              ++ (text "% " ++ (if faster then text "faster" else text "slower"))))

  -- The body of the loop: the rows it adds.
  unfoldable pub rows_of : List Entry → Text → Result (List (List Text))
  unfolding to_string result_text lookup
  rows_of results name = required type_error (lookup results name) >>= λ entry.
      required key_error entry.utest >>= λ utest. required key_error utest >>= λ time_pvalue.
      required type_error (lookup results (name ++ text "_mean")) >>= λ mean.
      required key_error mean.measurements >>= λ all_measurements.
      required index_error (first all_measurements) >>= λ measurements. ok (
        if fl.above_tenth time_pvalue
        then []
        else (name
            ∷ result_text measurements.time
            ∷ (to_string (fl.per_1000 measurements.real_time) 0 ++ text "ms")
            ∷ (to_string (fl.per_1000 measurements.real_time_other) 0 ++ text "ms")
            ∷ to_string time_pvalue 4
            ∷ [])
          ∷ [])

  unfoldable pub add_rows : List Entry → List Text → List (List Text) → Result (List (List Text))
  unfolding rows_of
  add_rows results [] rows = ok rows
  add_rows results (name ∷ names) rows =
      rows_of results name >>= λ more. add_rows results names (rows ++ more)

  unfoldable pub summary_rows : List Entry → Result (List (List Text))
  unfolding test_names add_rows
  summary_rows results = test_names results >>= λ names. add_rows results names []

abbrev pub headers : List Text
headers = text "Benchmark" ∷ text "Result" ∷ text "Time Old" ∷ text "Time New" ∷ text "P-value" ∷ []

abbrev max : ℕ → ℕ → ℕ
max a b = if ltb a b then b else a

-- `zip` stops at the end of the shorter list.
abbrev pub zip_with : {A B C : Type 0} → (A → B → C) → List A → List B → List C
zip_with f [] ys = []
zip_with f (x ∷ xs) [] = []
zip_with f (x ∷ xs) (y ∷ ys) = f x y ∷ zip_with f xs ys

-- `[max(*i) for i in zip(*col_widths)]`, where there is a row and more rows.
unfoldable pub col_widths : List Text → List (List Text) → List ℕ
col_widths row [] = map length row
col_widths row (next ∷ rows) = zip_with max (map length row) (col_widths next rows)

-- `'{:{}}'.format(cell, width)`
unfoldable pub pad : Text → ℕ → Text
pad cell width = cell ++ replicate (width - length cell) b' '

unfoldable pub format_row : List ℕ → List Text → Text
unfolding pad join
format_row widths row = text "| " ++ (join (text " | ") (zip_with pad row widths) ++ text " |\n")

-- The lines of the table.
unfoldable pub table : List (List Text) → List Text
unfolding col_widths format_row
table rows =
    let widths = col_widths headers rows in
    map (format_row widths) (headers ∷ map (λ i. replicate i b'-') widths ∷ rows)

unfoldable pub preamble : ℕ → Text
unfolding decimal
preamble num_results =
    if ltb 0 num_results
    then decimal num_results
      ++ (text " benchmark result"
          ++ ((if ltb 1 num_results then text "s" else [])
              ++ text " with statistically significant differences:"))
    else text "All benchmark results are statistically equivalent to baseline."

-- The text of the summary.
unfoldable pub summary : List (List Text) → Text
unfolding table preamble
summary [] = preamble 0 ++ text "\n\n"
summary (row ∷ rows) =
    preamble (length (row ∷ rows)) ++ (text "\n\n" ++ flatten (table (row ∷ rows)))
