-- ===== src/RunTests/Ranks.antt =====
-- tools/run_tests.py: rankings of the tests by their dependencies, and the ranking that a finished
-- sequence gives.
use Prim.Native.Nat.{suc}
use teide.Base.{
  ◌≡◌, refl, inl, inr, ℕ, ◌<◌, true, false, List, [], ◌∷◌, ◌++◌, All, length, append_assoc, arith,
  Bool-cases, if◌then◌else◌,
}
use teide.Base.Text.{Text, text_eq, text_eq_iff, text_eq_refl, contains, contains-append}
use teide.RunTests.{Test, ok, find_test, get_dependencies, test_sequence, names}
use teide.RunTests.Order.{
  IsOrdered, test_sequence-lists, test_sequence-IsOrdered, test_sequence-IsNamed,
  find_test-contains,
}

-- `rank` puts every dependency of a test below it.
abbrev pub IsRanked : (Text → ℕ) → List Test → Type 0
IsRanked rank tests =
    (n d : Text) (t : Test)
    → find_test tests n ≡ ok t
    → contains (get_dependencies t) d ≡ true
    → rank d < rank n

-- Every dependency is a test.
abbrev pub IsClosed : List Test → Type 0
IsClosed tests =
    (n d : Text) (t : Test)
    → find_test tests n ≡ ok t
    → contains (get_dependencies t) d ≡ true
    → contains (names tests) d ≡ true

abbrev pub IsDistinct : List Text → Type 0
IsDistinct [] = Unit
IsDistinct (n ∷ ns) = (contains ns n ≡ false) × IsDistinct ns

pub All-contains {ℓ} :
    (P : Text → Type ℓ) (ns : List Text) (n : Text) → All P ns → contains ns n ≡ true → P n
All-contains P [] n h c = cc
All-contains P (m ∷ ns) n h c = elim (Bool-cases (text_eq n m)) [
  | inl same ↦ rw ((text_eq_iff n m).0 same) h.0
  | inr other ↦ All-contains P ns n h.1 (rw other at c)
]

pub contains-All {ℓ} :
    (P : Text → Type ℓ) (ns : List Text) → ((n : Text) → contains ns n ≡ true → P n) → All P ns
contains-All P [] h = tt
contains-All P (m ∷ ns) h = (h m (rw text_eq_refl), contains-All P ns (λ n c. h n (ground (arith))))

-- The position of the first occurrence.
unfoldable pub index : List Text → Text → ℕ
index [] n = 0
index (m ∷ ns) n = if text_eq n m then 0 else suc (index ns n)

index-append_old :
    (xs ys : List Text) (n : Text) → contains xs n ≡ true → index (xs ++ ys) n < length xs
unfolding index
index-append_old [] ys n h = cc
index-append_old (x ∷ xs) ys n h = ground (arith, index-append_old xs ys n)

index-append_new :
    (xs ys : List Text) (n : Text) → contains xs n ≡ false → index (xs ++ (n ∷ ys)) n ≡ length xs
unfolding index
index-append_new [] ys n h = ground (arith, text_eq_refl n)
index-append_new (x ∷ xs) ys n h = ground (arith, index-append_new xs ys n)

module _ (tests : List Test) (d n : Text) (t : Test) (found : find_test tests n ≡ ok t)
    (dep : contains (get_dependencies t) d ≡ true) where
  IsOrdered-index :
      (seen ns : List Text)
      → IsOrdered tests seen ns
      → contains seen n ≡ false
      → contains ns n ≡ true
      → index (seen ++ ns) d < index (seen ++ ns) n
  IsOrdered-index seen [] h new c = cc
  IsOrdered-index seen (m ∷ ns) h new c = elim (Bool-cases (text_eq n m)) [
    | inl same ↦
        let e = (text_eq_iff n m).0 same in
        let deps = (rw (← e) at h.0) t found in
        rw (← e) (
          rw (index-append_new seen ns n new)
            (index-append_old seen (n ∷ ns) d (All-contains _ _ d deps dep)))
    | inr other ↦ rw (← append_assoc seen (m ∷ []) ns) (
        IsOrdered-index (seen ++ (m ∷ [])) ns h.1 (rw (contains-append seen (m ∷ []) n, new, other))
          (rw other at c))
  ]

contains_seen :
    (tests : List Test) (seen ns : List Text) (n : Text)
    → IsOrdered tests seen ns
    → contains ns n ≡ true
    → (t : Test) → find_test tests n ≡ ok t
    → (d : Text) → contains (get_dependencies t) d ≡ true
    → contains (seen ++ ns) d ≡ true
contains_seen tests seen [] n h c t found d dep = cc
contains_seen tests seen (m ∷ ns) n h c t found d dep = elim (Bool-cases (text_eq n m)) [
  | inl same ↦
      let deps = (rw (← (text_eq_iff n m).0 same) at h.0) t found in
      rw (contains-append seen (m ∷ ns) d, All-contains _ _ d deps dep)
  | inr other ↦
      rw (← append_assoc seen (m ∷ []) ns)
        (contains_seen tests (seen ++ (m ∷ [])) ns n h.1 (rw other at c) t found d dep)
]

module _ (depth : ℕ) (tests : List Test) (sequence : List Text)
    (e : test_sequence depth tests ≡ ok sequence) where
  pub found_listed : (n : Text) (t : Test) → find_test tests n ≡ ok t → contains sequence n ≡ true
  found_listed n t found =
      All-contains _ (names tests) n (test_sequence-lists depth tests sequence e)
        (find_test-contains tests n t found)

  -- A dependency cycle has no ranking, so a finished sequence shows that there is none.
  pub test_sequence-IsRanked : IsRanked (index sequence) tests
  test_sequence-IsRanked n d t found dep =
      IsOrdered-index tests d n t found dep [] sequence
        (test_sequence-IsOrdered depth tests sequence e) refl (found_listed n t found)

  pub test_sequence-IsClosed : IsClosed tests
  test_sequence-IsClosed n d t found dep =
      All-contains _ sequence d (test_sequence-IsNamed depth tests sequence e) (
        contains_seen tests [] sequence n (test_sequence-IsOrdered depth tests sequence e)
          (found_listed n t found) t found d dep)
