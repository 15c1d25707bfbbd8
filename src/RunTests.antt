-- ===== src/RunTests.antt =====
-- tools/run_tests.py: the tests that ctest reports, the order in which they are run, the runs.
pub mod Order
pub mod Ranks
pub mod Success
pub mod Distinct
pub mod Runs
mod Examples
use teide.Base.{
  ℕ, zero, suc, ◌+◌, ◌%◌, Bool, true, false, not, List, [], ◌∷◌, ◌++◌, ◌==◌, if◌then◌else◌, map,
  Option, none, some,
}
use teide.Base.Int.{ℤ, is_zero}
use teide.Base.Text.{Text, text, text_eq, contains}

-- An entry of a test's `properties`; the value of `DEPENDS` is a list of test names.
pub record Property : Type 0 where
  pub name : Text
  pub value : List Text

-- The keys `properties` and `command` may be missing from a test.
pub data Properties : Type 0 where
  absent : Properties
  given : List Property → Properties

pub record Test : Type 0 where
  pub name : Text
  pub command : Option (List Text)
  pub properties : Properties

-- What a call that may raise gives back; an `OSError`, such as a `FileNotFoundError`, is raised where
-- a process cannot be started.
pub data Result {ℓ} (A : Type ℓ) : Type ℓ where
  ok : A → Result A
  key_error : Result A
  recursion_error : Result A
  os_error : Result A

infixl 5 ◌>>=◌
abbrev pub ◌>>=◌ {ℓ κ} : {A : Type ℓ} {B : Type κ} → Result A → (A → Result B) → Result B
ok a >>= f = f a
key_error >>= f = key_error
recursion_error >>= f = recursion_error
os_error >>= f = os_error

unfoldable pub find_test : List Test → Text → Result Test
find_test [] name = key_error
find_test (test ∷ tests) name = if text_eq test.name name then ok test else find_test tests name

first_depends : List Property → List Text
first_depends [] = []
first_depends (prop ∷ props) =
    if text_eq prop.name (text "DEPENDS") then prop.value else first_depends props

properties_depends : Properties → List Text
properties_depends absent = []
properties_depends (given props) = first_depends props

unfoldable pub get_dependencies : Test → List Text
unfolding properties_depends first_depends
get_dependencies test = properties_depends test.properties

-- `for name in names: add(name)`, over the global `sequence`.
unfoldable pub for_each :
    (List Text → Text → Result (List Text)) → List Text → List Text → Result (List Text)
for_each add sequence [] = ok sequence
for_each add sequence (name ∷ names) = add sequence name >>= λ more. for_each add more names

-- The first argument is the depth of calls that the interpreter allows.
unfoldable pub add_to_sequence : List Test → ℕ → List Text → Text → Result (List Text)
unfolding for_each
add_to_sequence tests zero sequence test_name = recursion_error
add_to_sequence tests (suc depth) sequence test_name =
    let visit = find_test tests test_name >>= λ test.
    for_each (add_to_sequence tests depth) sequence (get_dependencies test) >>= λ more.
    ok (more ++ (test_name ∷ [])) in
    if contains sequence test_name then ok sequence else visit

abbrev pub names : List Test → List Text
names = map (λ t. t.name)

-- The loop over all tests.
unfoldable pub test_sequence : ℕ → List Test → Result (List Text)
unfolding add_to_sequence
test_sequence depth tests = for_each (add_to_sequence tests depth) [] (names tests)

-- What the second loop printed and counted: the tests in the order of their runs, each with its
-- exit code, and the number of failures.
pub record Report : Type 0 where
  pub runs : List (Text × ℤ)
  pub num_failures : ℕ

-- `run command` is the return code of the process, which is negative where a signal ended it, and
-- nothing where the process cannot be started.
unfoldable pub run_test : (List Text → Option ℤ) → Test → Result ℤ
run_test run test = elim test.command [
  | none ↦ key_error
  | some command ↦ elim (run command) [ none ↦ os_error | some retcode ↦ ok retcode ]
]

module _ (run : List Text → Option ℤ) (tests : List Test) where
  unfoldable pub run_sequence : Report → List Text → Result Report
  unfolding run_test
  run_sequence report [] = ok report
  run_sequence report (test_name ∷ rest) = find_test tests test_name >>= λ test.
      run_test run test >>= λ retcode.
      run_sequence
        (record {
          runs = report.runs ++ ((test_name, retcode) ∷ []);
          num_failures =
              if not (is_zero retcode) then report.num_failures + 1 else report.num_failures;
        })
        rest

-- The whole script; the count of failures is handed to `exit`.
unfoldable pub main : ℕ → (List Text → Option ℤ) → List Test → Result Report
unfolding test_sequence run_sequence
main depth run tests = test_sequence depth tests >>= λ sequence.
    run_sequence run tests (record { runs = []; num_failures = 0 }) sequence

-- `exit(num_failures)`, as the parent process sees it: the status has eight bits.
unfoldable pub exit_status : Report → ℕ
exit_status report = report.num_failures % 256
