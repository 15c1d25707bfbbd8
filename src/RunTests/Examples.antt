-- ===== src/RunTests/Examples.antt =====
-- tools/run_tests.py on small test lists.
use teide.Base.{◌≡◌, refl, ◌↔◌, ◌⊎◌, ℕ, Option, none, some, List, [], ◌∷◌, arith, if◌then◌else◌}
use teide.Base.Int.{ℤ, pos, negsuc}
use teide.Base.Text.{Text, text, text_eq, contains}
use teide.RunTests.{
  Test, absent, given, ok, key_error, recursion_error, test_sequence, main, find_test,
  get_dependencies, names, Report, exit_status,
}
use teide.RunTests.Order.{IsOrdered}
use teide.RunTests.Ranks.{IsRanked, IsClosed, IsDistinct}
use teide.RunTests.Success.{test_sequence_iff}
use teide.RunTests.Distinct.{test_sequence_correct}
use teide.RunTests.Runs.{IsReport, Gives, Stops, main-IsReport, main-exit_status}

abbrev test : Text → List Text → Test
test name deps = record {
  name = name;
  command = some (name ∷ []);
  properties = given (
      record { name = text "LABELS"; value = text "x" ∷ [] }
      ∷ record { name = text "DEPENDS"; value = deps }
      ∷ []);
}

abbrev suite : List Test
suite =
    test (text "c") (text "a" ∷ text "b" ∷ [])
    ∷ test (text "b") (text "a" ∷ [])
    ∷ record { name = text "a"; command = some (text "a" ∷ []); properties = absent }
    ∷ []

test_sequence-suite : test_sequence 5 suite ≡ ok (text "a" ∷ text "b" ∷ text "c" ∷ [])
unfolding test_sequence find_test get_dependencies text_eq
test_sequence-suite = refl

test_sequence_cyclic : test_sequence 9 (test (text "a") (text "a" ∷ []) ∷ []) ≡ recursion_error
unfolding test_sequence find_test get_dependencies text_eq
test_sequence_cyclic = refl

abbrev ordered : List Text
ordered = text "a" ∷ text "b" ∷ text "c" ∷ []

-- A signal ends `b`.
abbrev processes : List Text → Option ℤ
processes [] = none
processes (program ∷ arguments) = some (if text_eq program (text "b") then negsuc 10 else pos 0)

abbrev report : Report
report = record {
  runs = (text "a", pos 0) ∷ (text "b", negsuc 10) ∷ (text "c", pos 0) ∷ [];
  num_failures = 1;
}

main-suite : main 5 processes suite ≡ ok report
unfolding main find_test get_dependencies text_eq
main-suite = refl

test_sequence_correct_example :
    IsDistinct ordered
    × ((n : Text) → contains ordered n ≡ contains (names suite) n)
    × IsOrdered suite [] ordered
test_sequence_correct_example = test_sequence_correct 5 suite ordered test_sequence-suite

test_sequence_iff_example :
    ((depth : ℕ) × (sequence : List Text) × (test_sequence depth suite ≡ ok sequence))
    ↔ (IsClosed suite × ((rank : Text → ℕ) × IsRanked rank suite))
test_sequence_iff_example = test_sequence_iff suite

main-IsReport_example :
    ((final : Report) × (main 5 processes suite ≡ ok final)
      × IsReport processes suite ordered final)
    ⊎ Stops processes suite ordered (main 5 processes suite)
main-IsReport_example = main-IsReport processes suite 5 ordered test_sequence-suite

main-exit_status_example :
    (exit_status report ≡ 0)
    ↔ ((n : Text) (t : Test) → find_test suite n ≡ ok t → Gives processes t (pos 0))
main-exit_status_example = main-exit_status processes suite 5 report main-suite (omega arith)

-- A test that was not built has no command.
main_unbuilt :
    main 5 processes (record { name = text "u"; command = none; properties = absent } ∷ [])
    ≡ key_error
unfolding main find_test get_dependencies text_eq
main_unbuilt = refl

-- A dependency that is no test.
test_sequence_dangling : test_sequence 9 (test (text "a") (text "z" ∷ []) ∷ []) ≡ key_error
unfolding test_sequence find_test get_dependencies text_eq
test_sequence_dangling = refl
