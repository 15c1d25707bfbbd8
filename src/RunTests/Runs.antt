-- ===== src/RunTests/Runs.antt =====
-- tools/run_tests.py: the loop that runs the tests of a finished sequence, and the exit status.
use teide.Base.{
  ◌≡◌, refl, sym, ◌∙◌, ap, ◌↔◌, ◌⊎◌, inl, inr, ℕ, ◌+◌, ◌<◌, ◌≤◌, Bool, true, not, List, [], ◌∷◌,
  ◌++◌, map, keep, All, All-append, length, append-nil, append_assoc, arith, Bool-cases,
  if◌then◌else◌, Option, none, some, Option-cases,
}
use mathlib.Core.Option.{some-injective}
use mathlib.Core.List.{map-append}
use teide.Base.Int.{ℤ, pos, negsuc, is_zero}
use teide.Base.Text.{Text, text_eq, text_eq_iff, contains}
use teide.RunTests.{
  Test, Result, ok, key_error, os_error, find_test, test_sequence, Report, run_test, run_sequence,
  main, exit_status,
}
use teide.RunTests.Ranks.{found_listed}
use teide.RunTests.Order.{IsNamed, finished_parts, ok-injective, test_sequence-IsNamed}
use teide.RunTests.Success.{find_test_total}

abbrev pub failed : Text × ℤ → Bool
failed r = not (is_zero r.1)

-- The test has a command, and its process ends with this exit code.
abbrev pub Gives : (List Text → Option ℤ) → Test → ℤ → Type 0
Gives run t code = (c : List Text) × (t.command ≡ some c) × (run c ≡ some code)

-- The exit code is that of the process of the test of that name.
abbrev pub IsRun : (List Text → Option ℤ) → List Test → Text × ℤ → Type 0
IsRun run tests r = (t : Test) × (find_test tests r.0 ≡ ok t) × Gives run t r.1

-- The runs are those of the sequence, in its order, and the failures are counted.
pub record IsReport (run : List Text → Option ℤ) (tests : List Test) (sequence : List Text)
    (r : Report) : Type 0 where
  pub in_order : map (λ run. run.0) r.runs ≡ sequence
  pub each_run : All (IsRun run tests) r.runs
  pub counted : r.num_failures ≡ length (keep failed r.runs)

counted_snoc :
    (rs : List (Text × ℤ)) (r : Text × ℤ)
    → length (keep failed (rs ++ (r ∷ [])))
      ≡ (if not (is_zero r.1) then length (keep failed rs) + 1 else length (keep failed rs))
counted_snoc [] r = ground arith
counted_snoc (x ∷ rs) r = ground (arith, counted_snoc rs r)

abbrev pub Passed : Text × ℤ → Type 0
Passed r = r.1 ≡ pos 0

no_failure_iff : (rs : List (Text × ℤ)) → (length (keep failed rs) ≡ 0) ↔ All Passed rs
no_failure_iff [] = ground arith
no_failure_iff ((n, pos k) ∷ rs) = ground (arith, no_failure_iff rs)
no_failure_iff ((n, negsuc k) ∷ rs) = ground (arith, no_failure_iff rs)

length-keep-le : (rs : List (Text × ℤ)) → length (keep failed rs) ≤ length rs
length-keep-le [] = omega arith
length-keep-le (r ∷ rs) = ground (arith, length-keep-le rs)

-- What stops the loop: a test without a command is a KeyError, and one whose process cannot be started
-- is an OSError.
abbrev pub Raises : (List Text → Option ℤ) → Test → Result Report → Type 0
Raises run t result =
    ((t.command ≡ none) × (result ≡ key_error))
    ⊎ ((c : List Text) × (t.command ≡ some c) × (run c ≡ none) × (result ≡ os_error))

-- The sequence goes up to a test that raises, and all tests before it have run.
abbrev pub Stops : (List Text → Option ℤ) → List Test → List Text → Result Report → Type 0
Stops run tests sequence result =
    (before : List Text) × (n : Text) × (after : List Text) × (t : Test) × (sequence
      ≡ before ++ (n ∷ after))
    × All (λ m. (code : ℤ) × IsRun run tests (m, code)) before
    × (find_test tests n ≡ ok t)
    × Raises run t result

Gives-unique :
    (run : List Text → Option ℤ) (t : Test) (a b : ℤ) → Gives run t a → Gives run t b → a ≡ b
Gives-unique run t a b (c, e, f) (d, e', f') =
    let same = some-injective c d (sym e ∙ e') in some-injective a b (sym f ∙ ap run same ∙ f')

run_test_cases :
    (run : List Text → Option ℤ) (t : Test)
    → ((code : ℤ) × (run_test run t ≡ ok code) × Gives run t code)
      ⊎ (((t.command ≡ none) × (run_test run t ≡ key_error))
          ⊎ ((c : List Text) × (t.command ≡ some c) × (run c ≡ none) × (run_test run t ≡ os_error)))
unfolding run_test
run_test_cases run t = elim (Option-cases t.command) [
  | inl lost ↦ inr (inl (lost, rw (run_test, lost)))
  | inr (c, here) ↦ elim (Option-cases (run c)) [
    | inl dead ↦ inr (inr (c, here, dead, rw (run_test, here, dead)))
    | inr (code, ends) ↦ inl (code, rw (run_test, here, ends), (c, here, ends))
  ]
]

module _ (run : List Text → Option ℤ) (tests : List Test) where
  run_sequence-IsReport :
      (done rest : List Text) (r : Report)
      → IsNamed tests rest
      → IsReport run tests done r
      → ((final : Report) × (run_sequence run tests r rest ≡ ok final)
          × IsReport run tests (done ++ rest) final)
        ⊎ Stops run tests rest (run_sequence run tests r rest)
  unfolding run_sequence
  run_sequence-IsReport done [] r named h = inl (r, refl, rw append-nil h)
  run_sequence-IsReport done (n ∷ rest) r named h =
      let (t, found) = find_test_total tests n named.0 in
      elim (run_test_cases run t) [
        | inr (inl (lost, e)) ↦ inr ([], n, rest, t, refl, tt, found, inl (lost, rw (found, e)))
        | inr (inr (c, here, dead, e)) ↦
            inr ([], n, rest, t, refl, tt, found, inr (c, here, dead, rw (found, e)))
        | inl (code, e, ends) ↦
            let next : Report = record {
              runs = r.runs ++ ((n, code) ∷ []);
              num_failures = if not (is_zero code) then r.num_failures + 1 else r.num_failures;
            } in
            let good : IsReport run tests (done ++ (n ∷ [])) next = record {
              in_order = rw (map-append, h.in_order);
              each_run = All-append _ r.runs ((n, code) ∷ []) h.each_run ((t, found, ends), tt);
              counted = rw counted_snoc (ground (arith, h.counted));
            } in
            elim (run_sequence-IsReport (done ++ (n ∷ [])) rest next named.1 good) [
              | inl (final, e', good') ↦
                  inl (final, rw (found, e) e', rw (append_assoc done (n ∷ []) rest) at good')
              | inr (before, m, after, u, parts, all_run, found', why) ↦ inr (
                n ∷ before,
                m,
                after,
                u,
                ap (λ l. n ∷ l) parts,
                ((code, (t, found, ends)), all_run),
                found',
                rw (found, e) why,
              )
            ]
      ]

  -- A finished sequence is run in its order, either to its end, or up to the first test that has no
  -- command, which is a KeyError, or whose process cannot be started, which is an OSError.
  pub main-IsReport :
      (depth : ℕ) (sequence : List Text)
      → test_sequence depth tests ≡ ok sequence
      → ((final : Report) × (main depth run tests ≡ ok final) × IsReport run tests sequence final)
        ⊎ Stops run tests sequence (main depth run tests)
  unfolding main
  main-IsReport depth sequence e =
      let runs =
        run_sequence-IsReport [] sequence (record { runs = []; num_failures = 0 })
          (test_sequence-IsNamed depth tests sequence e)
          (record { in_order = refl; each_run = tt; counted = refl }) in
      rw e runs

  -- A run that ended has got to the end of its sequence.
  main-ok :
      (depth : ℕ) (sequence : List Text) (final : Report)
      → test_sequence depth tests ≡ ok sequence
      → main depth run tests ≡ ok final
      → IsReport run tests sequence final
  main-ok depth sequence final e e' = elim (main-IsReport depth sequence e) [
    | inl (other, e'', good) ↦ rw (ok-injective other final (sym e'' ∙ e')) at good
    | inr (before, n, after, t, parts, all_run, found, why) ↦ elim why [
      | inl (lost, error) ↦ cc
      | inr (c, here, dead, error) ↦ cc
    ]
  ]

  report-Passed :
      (rs : List (Text × ℤ)) (n : Text) (t : Test)
      → All (IsRun run tests) rs
      → All Passed rs
      → contains (map (λ r. r.0) rs) n ≡ true
      → find_test tests n ≡ ok t
      → Gives run t (pos 0)
  report-Passed [] n t h p c found = cc
  report-Passed ((m, code) ∷ rs) n t ((u, found', e), h) p c found =
      elim (Bool-cases (text_eq n m)) [
        | inl same ↦
            let there = (rw (← (text_eq_iff n m).0 same) at found') in
            rw (ok-injective t u (sym found ∙ there)) (rw p.0 at e)
        | inr other ↦ report-Passed rs n t h p.1 (rw other at c) found
      ]

  Passed-report :
      (rs : List (Text × ℤ))
      → All (IsRun run tests) rs
      → ((n : Text) (t : Test) → find_test tests n ≡ ok t → Gives run t (pos 0))
      → All Passed rs
  Passed-report [] h p = tt
  Passed-report ((m, code) ∷ rs) ((u, found, e), h) p =
      (Gives-unique run u code (pos 0) e (p m u found), Passed-report rs h p)

  -- Where fewer than 256 tests were run, the exit status of the script is 0 exactly when every test
  -- that can be found by its name has a command that ends with exit code 0.
  pub main-exit_status :
      (depth : ℕ) (final : Report)
      → main depth run tests ≡ ok final
      → length final.runs < 256
      → (exit_status final ≡ 0)
        ↔ ((n : Text) (t : Test) → find_test tests n ≡ ok t → Gives run t (pos 0))
  unfolding exit_status main
  main-exit_status depth final e few =
      let (sequence, e₁, e₂) = finished_parts _ final (test_sequence depth tests) e in
      let report = main-ok depth sequence final e₁ e in
      let none_failed = no_failure_iff final.runs in
      let size = length-keep-le final.runs in
      (
        λ zero n t found.
            report-Passed final.runs n t report.each_run
              (none_failed.0 (let c = report.counted in omega arith))
              (rw report.in_order (found_listed depth tests sequence e₁ n t found)) found,
        λ all_pass.
            let z = none_failed.1 (Passed-report final.runs report.each_run all_pass) in
            let c = report.counted in omega arith,
      )
