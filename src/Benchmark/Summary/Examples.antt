-- ===== src/Benchmark/Summary/Examples.antt =====
-- tools/benchmark.py: a summary of whole numbers.
use teide.Base.{
  ◌≡◌, refl, ℕ, ◌+◌, ◌*◌, ◌/◌, ltb, Bool, true, false, List, [], ◌∷◌, ◌++◌, none, some, map, All,
  length, keep,
}
use mathlib.Core.List.{flatten}
use teide.Base.Int.{ℤ, pos, negsuc}
use teide.Base.Text.{Text, text, text_eq}
use teide.Benchmark.Summary.{
  Floats, Entry, ok, raised, key_error, decimal, summary_rows, headers, col_widths, table, summary,
}
use teide.Benchmark.Summary.Alignment.{sum}
use teide.Benchmark.Summary.Rows.{first_cell, is_significant, tested, summary_rows_lem}

abbrev is_positive : ℤ → Bool
is_positive (pos n) = ltb 0 n
is_positive (negsuc n) = false

abbrev is_negative : ℤ → Bool
is_negative (pos n) = false
is_negative (negsuc n) = true

abbrev percent : ℤ → ℤ
percent (pos n) = pos (n * 100)
percent (negsuc n) = pos ((n + 1) * 100)

abbrev thousandth : ℤ → ℤ
thousandth (pos n) = pos (n / 1000)
thousandth (negsuc n) = pos 0

abbrev shown : ℤ → ℕ → Text
shown (pos n) precision = decimal n
shown (negsuc n) precision = b'-' ∷ decimal (n + 1)

abbrev whole : Floats
whole = record {
  Float = ℤ;
  above_tenth = is_positive;
  negative = is_negative;
  abs_percent = percent;
  per_1000 = thousandth;
  fixed = shown;
}

abbrev mean : Text → ℤ → Entry whole
mean name time = record {
  name = name;
  utest = some none;
  measurements =
      some (record { time = time; real_time = pos 2000; real_time_other = pos 15000 } ∷ []);
}

abbrev test : Text → ℤ → Entry whole
test name pvalue = record { name = name; utest = some (some pvalue); measurements = some [] }

abbrev results : List (Entry whole)
results =
    test (text "a") (pos 0)
    ∷ mean (text "a_mean") (negsuc 1)
    ∷ test (text "bc") (pos 1)
    ∷ mean (text "bc_mean") (pos 3)
    ∷ []

abbrev row : List Text
row = text "a" ∷ text "🟢 200% faster" ∷ text "2ms" ∷ text "15ms" ∷ text "0" ∷ []

found : summary_rows whole results ≡ ok (row ∷ [])
unfolding summary_rows text_eq decimal
found = refl

-- An entry without the key `utest` is an error.
missing :
    summary_rows whole (record { name = text "a"; utest = none; measurements = none } ∷ [])
    ≡ raised key_error
unfolding summary_rows
missing = refl

written :
    summary (row ∷ [])
    ≡ text "1 benchmark result with statistically significant differences:"
      ++ (text "\n\n"
          ++ (text "| Benchmark | Result        | Time Old | Time New | P-value |\n"
              ++ (text "| --------- | ------------- | -------- | -------- | ------- |\n"
                  ++ text "| a         | 🟢 200% faster | 2ms      | 15ms     | 0       |\n")))
unfolding summary flatten
written = refl

summary_rows_lem_example :
    (map first_cell (row ∷ []) ≡ keep (is_significant whole results) (tested whole results))
    × All (λ line. length line ≡ sum (col_widths headers (row ∷ [])) + 17) (table (row ∷ []))
summary_rows_lem_example = summary_rows_lem whole results (row ∷ []) found
