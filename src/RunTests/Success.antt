-- ===== src/RunTests/Success.antt =====
-- tools/run_tests.py: when `add_to_sequence` finishes over all tests, and how it fails.
use Prim.Native.Nat.{zero, suc, max}
use teide.Base.{
  ◌≡◌, ◌≢◌, refl, ◌↔◌, inl, inr, ℕ, ◌<◌, true, List, [], ◌∷◌, ◌++◌, All, arith, Bool-cases,
}
use teide.Base.Text.{Text, text_eq, text_eq_iff, contains}
use teide.RunTests.{
  Test, Result, ok, find_test, get_dependencies, for_each, add_to_sequence, test_sequence, names,
}
use teide.RunTests.Ranks.{
  IsRanked, IsClosed, contains-All, index, test_sequence-IsRanked, test_sequence-IsClosed,
}

pub find_test_total :
    (tests : List Test) (n : Text)
    → contains (names tests) n ≡ true
    → (t : Test) × (find_test tests n ≡ ok t)
unfolding find_test
find_test_total [] n c = cc
find_test_total (x ∷ tests) n c = elim (Bool-cases (text_eq x.name n)) [
  | inl same ↦ (x, rw same)
  | inr other ↦
      let later : contains (names tests) n ≡ true =
        ground (arith, text_eq_iff x.name n, text_eq_iff n x.name) in
      let (t, found) = find_test_total tests n later in (t, rw other found)
]

abbrev Finishes : (List Text → Text → Result (List Text)) → Text → Type 0
Finishes add n = (s : List Text) → (after : List Text) × (add s n ≡ ok after)

for_each_total :
    (add : List Text → Text → Result (List Text)) (ns : List Text)
    → All (Finishes add) ns
    → (s : List Text) → (after : List Text) × (for_each add s ns ≡ ok after)
unfolding for_each
for_each_total add [] h s = (s, refl)
for_each_total add (n ∷ ns) h s =
    let (mid, e₁) = h.0 s in let (after, e₂) = for_each_total add ns h.1 mid in (after, rw e₁ e₂)

module _ (rank : Text → ℕ) (tests : List Test) (ranked : IsRanked rank tests) where
  add_to_sequence_total :
      IsClosed tests
      → (depth : ℕ) (n : Text) → rank n < depth
      → contains (names tests) n ≡ true
      → Finishes (add_to_sequence tests depth) n
  unfolding add_to_sequence
  add_to_sequence_total closed zero n h c s = elim h [ ]
  add_to_sequence_total closed (suc depth) n h c s = elim (Bool-cases (contains s n)) [
    | inl old ↦ (s, rw old)
    | inr new ↦
        let (t, found) = find_test_total tests n c in
        let inner =
          contains-All (Finishes (add_to_sequence tests depth)) (get_dependencies t) (λ d dep.
            add_to_sequence_total closed depth d (let lower = ranked n d t found dep in omega arith)
              (closed n d t found dep)) in
        let (mid, e) = for_each_total _ (get_dependencies t) inner s in
        (mid ++ (n ∷ []), rw (new, found) (rw e))
  ]

  pub test_sequence_total :
      IsClosed tests
      → (depth : ℕ) → ((n : Text) → contains (names tests) n ≡ true → rank n < depth)
      → (sequence : List Text) × (test_sequence depth tests ≡ ok sequence)
  unfolding test_sequence
  test_sequence_total closed depth low =
      for_each_total (add_to_sequence tests depth) (names tests)
        (contains-All _ (names tests) λ n c. add_to_sequence_total closed depth n (low n c) c) []

-- The highest rank.
pub max_rank : (Text → ℕ) → List Text → ℕ
max_rank rank [] = 0
max_rank rank (n ∷ ns) = max (rank n) (max_rank rank ns)

pub max_rank-bound :
    (rank : Text → ℕ) (ns : List Text) (n : Text)
    → contains ns n ≡ true
    → rank n < suc (max_rank rank ns)
unfolding max_rank
max_rank-bound rank [] n c = cc
max_rank-bound rank (m ∷ ns) n c = elim (Bool-cases (text_eq n m)) [
  | inl same ↦ rw ((text_eq_iff n m).0 same) (omega arith)
  | inr other ↦ omega (arith, max_rank-bound rank ns n (rw other at c))
]

-- Some recursion depth suffices to order the tests exactly when every dependency names a given test
-- and some ranking puts every dependency below the test that has it, which is to say that there is
-- no cycle.
pub test_sequence_iff :
    (tests : List Test)
    → ((depth : ℕ) × (sequence : List Text) × (test_sequence depth tests ≡ ok sequence))
      ↔ (IsClosed tests × ((rank : Text → ℕ) × IsRanked rank tests))
test_sequence_iff tests = (
  λ (depth, sequence, e). (
    test_sequence-IsClosed depth tests sequence e,
    (index sequence, test_sequence-IsRanked depth tests sequence e),
  ),
  λ (closed, (rank, ranked)).
      let depth = suc (max_rank rank (names tests)) in
      let (sequence, e) =
        test_sequence_total rank tests ranked closed depth (max_rank-bound rank (names tests)) in
      (depth, sequence, e),
)

-- An error that no inner call raises is not raised.
abbrev Avoids : Result (List Text) → (List Text → Text → Result (List Text)) → Text → Type 0
Avoids error add n = (s : List Text) → add s n ≢ error
