-- ===== src/RunTests/Distinct.antt =====
-- tools/run_tests.py: no test is in the sequence twice.
use Prim.Native.Nat.{zero, suc}
use teide.Base.{
  ◌≡◌, refl, ◌⊎◌, inl, inr, ℕ, ◌<◌, true, false, List, [], ◌∷◌, ◌++◌, All, arith, Bool-cases,
}
use teide.Base.Text.{Text, text_eq, text_eq_iff, contains, contains-append}
use teide.RunTests.{
  Test, Result, ok, get_dependencies, for_each, add_to_sequence, test_sequence, names,
}
use teide.RunTests.Order.{
  IsOrdered, add_to_sequence_cases, finished_parts, ok-injective, test_sequence-IsOrdered,
  test_sequence-IsNamed, test_sequence-lists,
}
use teide.RunTests.Success.{max_rank, max_rank-bound}
use teide.RunTests.Ranks.{
  IsRanked, IsDistinct, All-contains, contains-All, index, test_sequence-IsRanked,
}

IsDistinct-snoc :
    (ns : List Text) (n : Text)
    → IsDistinct ns
    → contains ns n ≡ false
    → IsDistinct (ns ++ (n ∷ []))
IsDistinct-snoc [] n h new = (refl, tt)
IsDistinct-snoc (m ∷ ns) n h new = (
  ground (arith, contains-append ns (n ∷ []) m, text_eq_iff n m, text_eq_iff m n),
  IsDistinct-snoc ns n h.1 (ground arith),
)

module _ (rank : Text → ℕ) where
  -- What is added has a rank below the bound.
  abbrev AddsBelow : ℕ → List Text → List Text → Type 0
  AddsBelow bound before after =
      (n : Text) → contains after n ≡ true → (contains before n ≡ true) ⊎ (rank n < bound)

  AddsBelow-trans :
      (bound : ℕ) (xs ys zs : List Text)
      → AddsBelow bound xs ys
      → AddsBelow bound ys zs
      → AddsBelow bound xs zs
  AddsBelow-trans bound xs ys zs h k n c = elim (k n c) [ inl mid ↦ h n mid | inr low ↦ inr low ]

  abbrev AddsDistinct : (List Text → Text → Result (List Text)) → Text → Type 0
  AddsDistinct add n =
      (s after : List Text)
      → IsDistinct s
      → add s n ≡ ok after
      → IsDistinct after × AddsBelow (suc (rank n)) s after

  for_each-AddsDistinct :
      (add : List Text → Text → Result (List Text))
      → ((n : Text) → AddsDistinct add n)
      → (bound : ℕ) (ns : List Text) → All (λ n. rank n < bound) ns
      → (s after : List Text) → IsDistinct s
      → for_each add s ns ≡ ok after
      → IsDistinct after × AddsBelow bound s after
  unfolding for_each
  for_each-AddsDistinct add h bound [] low s after d e =
      rw (← ok-injective s after e) (d, λ n c. inl c)
  for_each-AddsDistinct add h bound (n ∷ ns) low s after d e =
      let (mid, e₁, e₂) = finished_parts (λ more. for_each add more ns) after (add s n) e in
      let (d₁, a₁) = h n s mid d e₁ in
      let (d₂, a₂) = for_each-AddsDistinct add h bound ns low.1 mid after d₁ e₂ in
      let wider : AddsBelow bound s mid = λ m c. elim (a₁ m c) [
        | inl old ↦ inl old
        | inr less ↦ inr (let top = low.0 in omega arith)
      ] in
      (d₂, AddsBelow-trans bound s mid after wider a₂)

  absent :
      (mid s : List Text) (n : Text)
      → contains s n ≡ false
      → AddsBelow (rank n) s mid
      → contains mid n ≡ false
  absent mid s n new a = elim (Bool-cases (contains mid n)) [
    | inr out ↦ out
    | inl c ↦ elim (a n c) [ inl old ↦ cc | inr low ↦ absurd (omega arith) ]
  ]

  added :
      (mid s : List Text) (n : Text)
      → AddsBelow (rank n) s mid
      → AddsBelow (suc (rank n)) s (mid ++ (n ∷ []))
  added mid s n a m c = elim (Bool-cases (text_eq m n)) [
    | inl same ↦ inr (rw ((text_eq_iff m n).0 same) (omega arith))
    | inr other ↦
        let old : contains mid m ≡ true = ground (arith, contains-append mid (n ∷ []) m) in
        elim (a m old) [ inl before ↦ inl before | inr low ↦ inr (omega arith) ]
  ]

  module _ (tests : List Test) (ranked : IsRanked rank tests) where
    add_to_sequence-AddsDistinct :
        (depth : ℕ) (n : Text) → AddsDistinct (add_to_sequence tests depth) n
    unfolding add_to_sequence
    add_to_sequence-AddsDistinct zero n s after d e = cc
    add_to_sequence-AddsDistinct (suc depth) n s after d e =
        elim (add_to_sequence_cases tests depth s n after e) [
          | inl (old, same) ↦ rw (← same) (d, λ m c. inl c)
          | inr (t, mid, new, found, e₂, last) ↦
              let (d₁, a₁) =
                for_each-AddsDistinct _ (add_to_sequence-AddsDistinct depth) (rank n)
                  (get_dependencies t)
                  (contains-All _ (get_dependencies t) λ m dep. ranked n m t found dep) s mid d
                  e₂ in
              rw last (IsDistinct-snoc mid n d₁ (absent mid s n new a₁), added mid s n a₁)
        ]

    pub test_sequence-IsDistinct_of_IsRanked :
        (depth : ℕ) (sequence : List Text)
        → test_sequence depth tests ≡ ok sequence
        → IsDistinct sequence
    unfolding test_sequence
    test_sequence-IsDistinct_of_IsRanked depth sequence e =
        (for_each-AddsDistinct _ (add_to_sequence-AddsDistinct depth)
          (suc (max_rank rank (names tests))) (names tests)
          (contains-All _ (names tests) (max_rank-bound rank (names tests))) [] sequence tt e).0

-- A finished sequence holds exactly the names of the given tests, each of them once, and each test
-- stands behind all of its dependencies.
pub test_sequence_correct :
    (depth : ℕ) (tests : List Test) (sequence : List Text)
    → test_sequence depth tests ≡ ok sequence
    → IsDistinct sequence
      × ((n : Text) → contains sequence n ≡ contains (names tests) n)
      × IsOrdered tests [] sequence
test_sequence_correct depth tests sequence e = (
  test_sequence-IsDistinct_of_IsRanked (index sequence) tests
      (test_sequence-IsRanked depth tests sequence e) depth sequence e,
  same_names,
  test_sequence-IsOrdered depth tests sequence e,
)
  where
    named : (n : Text) → contains sequence n ≡ true → contains (names tests) n ≡ true
    named n = All-contains _ sequence n (test_sequence-IsNamed depth tests sequence e)

    listed : (n : Text) → contains (names tests) n ≡ true → contains sequence n ≡ true
    listed n = All-contains _ (names tests) n (test_sequence-lists depth tests sequence e)

    same_names : (n : Text) → contains sequence n ≡ contains (names tests) n
    same_names n = ground (arith, named n, listed n)
