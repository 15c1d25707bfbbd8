-- ===== src/RunTests/Order.antt =====
-- tools/run_tests.py: what holds of a sequence that `add_to_sequence` built. A rule for the two
-- nested recursions, and the order of the finished sequence.
use Prim.Native.Nat.{zero, suc}
use teide.Base.{
  ◌≡◌, refl, sym, ◌∙◌, ap, ◌⊎◌, inl, inr, ℕ, true, false, List, [], ◌∷◌, ◌++◌, All, All-append,
  append-nil, append_assoc, arith, Bool-cases,
}
use teide.Base.Text.{Text, text_eq_iff, contains, contains-append, contains-snoc}
use teide.RunTests.{
  Test, Result, ok, key_error, recursion_error, os_error, ◌>>=◌, find_test, get_dependencies,
  for_each, add_to_sequence, test_sequence, names,
}

abbrev pub Extends : List Text → List Text → Type 0
Extends xs ys = (rest : List Text) × (ys ≡ xs ++ rest)

Extends-trans : (xs ys zs : List Text) → Extends xs ys → Extends ys zs → Extends xs zs
Extends-trans xs ys zs (r, e) (q, f) = (r ++ q, f ∙ ap (λ l. l ++ q) e ∙ append_assoc xs r q)

contains-Extends :
    (xs ys : List Text) (n : Text) → Extends xs ys → contains xs n ≡ true → contains ys n ≡ true
contains-Extends xs ys n (r, e) h = rw (e, contains-append) (rw h)

-- A chain of two calls that finished: what the first one gave to the second.
pub finished_parts :
    {A B : Type 0} (following : A → Result B) (last : B) (call : Result A)
    → (call >>= following) ≡ ok last
    → (given : A) × (call ≡ ok given) × (following given ≡ ok last)
finished_parts following last key_error raised = cc
finished_parts following last recursion_error raised = cc
finished_parts following last os_error raised = cc
finished_parts following last (ok given) finished = (given, refl, finished)

-- What an inner call may rely on, and what it leaves behind.
abbrev pub Keeps : (List Text → Type 0) → (List Text → Text → Result (List Text)) → Type 0
Keeps P add =
    (sequence : List Text) (name : Text) (after : List Text)
    → P sequence
    → add sequence name ≡ ok after
    → P after × Extends sequence after × (contains after name ≡ true)

pub ok-injective {ℓ} : {A : Type ℓ} (a b : A) → Path (Result A) (ok a) (ok b) → a ≡ b
ok-injective a b e = cc

module _ (P : List Text → Type 0) where
  pub for_each-Keeps :
      (add : List Text → Text → Result (List Text))
      → Keeps P add
      → (sequence ns after : List Text) → P sequence
      → for_each add sequence ns ≡ ok after
      → P after × Extends sequence after × All (λ n. contains after n ≡ true) ns
  unfolding for_each
  for_each-Keeps add keeps sequence [] after p e =
      let same : sequence ≡ after = ok-injective sequence after e in
      (rw same at p, ([], sym same ∙ sym (append-nil sequence)), tt)
  for_each-Keeps add keeps sequence (n ∷ ns) after p e =
      let (mid, e₁, e₂) = finished_parts (λ more. for_each add more ns) after (add sequence n) e in
      let (p₁, x₁, c₁) = keeps sequence n mid p e₁ in
      let (p₂, x₂, c₂) = for_each-Keeps add keeps mid ns after p₁ e₂ in
      (p₂, Extends-trans sequence mid after x₁ x₂, (contains-Extends mid after n x₂ c₁, c₂))

-- The last step of `add_to_sequence` on a name that is not in the sequence.
pub add_to_sequence_cases :
    (tests : List Test) (depth : ℕ) (sequence : List Text) (name : Text) (after : List Text)
    → add_to_sequence tests (suc depth) sequence name ≡ ok after
    → (contains sequence name ≡ true) × (sequence ≡ after)
      ⊎ ((t : Test) × (mid : List Text) × (contains sequence name ≡ false)
          × (find_test tests name ≡ ok t)
          × (for_each (add_to_sequence tests depth) sequence (get_dependencies t) ≡ ok mid)
          × (after ≡ mid ++ (name ∷ [])))
unfolding add_to_sequence
add_to_sequence_cases tests depth sequence name after e =
    elim (Bool-cases (contains sequence name)) [
      | inl old ↦ inl (old, ok-injective sequence after (rw old at e))
      | inr new ↦
          let (t, found, e₁) = finished_parts _ after (find_test tests name) (rw new at e) in
          let (mid, e₂, e₃) =
            finished_parts _ after (for_each (add_to_sequence tests depth) sequence _) e₁ in
          inr (t, mid, new, found, e₂, sym (ok-injective _ after e₃))
    ]

-- A property of sequences is kept if it is kept when a found test whose dependencies are all
-- present is put at the end.
pub add_to_sequence-Keeps :
    (P : List Text → Type 0) (tests : List Test)
    → ((sequence : List Text) (name : Text) (t : Test)
        → P sequence
        → find_test tests name ≡ ok t
        → All (λ d. contains sequence d ≡ true) (get_dependencies t)
        → P (sequence ++ (name ∷ [])))
    → (depth : ℕ) (sequence : List Text) (name : Text) (after : List Text) → P sequence
    → add_to_sequence tests depth sequence name ≡ ok after
    → P after × Extends sequence after × (contains after name ≡ true)
unfolding add_to_sequence
add_to_sequence-Keeps P tests keep zero sequence name after p e = cc
add_to_sequence-Keeps P tests keep (suc depth) sequence name after p e =
    elim (add_to_sequence_cases tests depth sequence name after e) [
      | inl (old, same) ↦ (rw same at p, ([], sym same ∙ sym (append-nil sequence)), rw same at old)
      | inr (t, mid, new, found, e₂, last) ↦
          let (p₁, x₁, deps) =
            for_each-Keeps P _ (add_to_sequence-Keeps P tests keep depth) sequence
              (get_dependencies t) mid p e₂ in
          let end : Extends mid after = (name ∷ [], last) in
          (
            rw last (keep mid name t p₁ found deps),
            Extends-trans sequence mid after x₁ end,
            rw last (contains-snoc mid name),
          )
    ]

-- In the sequence, behind `seen`, every test stands behind all of its dependencies.
abbrev pub IsOrdered : List Test → List Text → List Text → Type 0
IsOrdered tests seen [] = Unit
IsOrdered tests seen (n ∷ ns) =
    ((t : Test) → find_test tests n ≡ ok t → All (λ d. contains seen d ≡ true) (get_dependencies t))
    × IsOrdered tests (seen ++ (n ∷ [])) ns

IsOrdered-snoc :
    (tests : List Test) (seen ns : List Text) (n : Text)
    → IsOrdered tests seen ns
    → ((t : Test)
        → find_test tests n ≡ ok t
        → All (λ d. contains (seen ++ ns) d ≡ true) (get_dependencies t))
    → IsOrdered tests seen (ns ++ (n ∷ []))
IsOrdered-snoc tests seen [] n h deps = (rw append-nil at deps, tt)
IsOrdered-snoc tests seen (m ∷ ns) n h deps =
    (h.0, IsOrdered-snoc tests (seen ++ (m ∷ [])) ns n h.1 (rw append_assoc deps))

-- Every entry is the name of a given test.
abbrev pub IsNamed : List Test → List Text → Type 0
IsNamed tests = All (λ n. contains (names tests) n ≡ true)

pub find_test-contains :
    (tests : List Test) (n : Text) (t : Test)
    → find_test tests n ≡ ok t
    → contains (names tests) n ≡ true
unfolding find_test
find_test-contains [] n t e = cc
find_test-contains (x ∷ tests) n t e =
    ground (arith, text_eq_iff n x.name, text_eq_iff x.name n, find_test-contains tests n t)

module _ (depth : ℕ) (tests : List Test) (sequence : List Text) where
  pub test_sequence-Keeps :
      (P : List Text → Type 0)
      → P []
      → ((sequence : List Text) (name : Text) (t : Test)
          → P sequence
          → find_test tests name ≡ ok t
          → All (λ d. contains sequence d ≡ true) (get_dependencies t)
          → P (sequence ++ (name ∷ [])))
      → test_sequence depth tests ≡ ok sequence
      → P sequence × All (λ n. contains sequence n ≡ true) (names tests)
  unfolding test_sequence
  test_sequence-Keeps P start keep e =
      let (p, _, all) =
        for_each-Keeps P _ (add_to_sequence-Keeps P tests keep depth) [] (names tests) sequence
          start e in
      (p, all)

  pub test_sequence-IsOrdered :
      test_sequence depth tests ≡ ok sequence → IsOrdered tests [] sequence
  test_sequence-IsOrdered e = (test_sequence-Keeps (IsOrdered tests []) tt keep e).0
    where
      keep :
          (seq : List Text) (name : Text) (t : Test)
          → IsOrdered tests [] seq
          → find_test tests name ≡ ok t
          → All (λ d. contains seq d ≡ true) (get_dependencies t)
          → IsOrdered tests [] (seq ++ (name ∷ []))
      keep seq name t p found deps =
          IsOrdered-snoc tests [] seq name p
            λ u found'. let same : t ≡ u = ok-injective t u (sym found ∙ found') in rw (← same) deps

  pub test_sequence-IsNamed : test_sequence depth tests ≡ ok sequence → IsNamed tests sequence
  test_sequence-IsNamed e =
      (test_sequence-Keeps (IsNamed tests) tt
        (λ seq name t p found deps.
          All-append (λ n. contains (names tests) n ≡ true) seq (name ∷ []) p
            (find_test-contains tests name t found, tt))
        e).0

  pub test_sequence-lists :
      test_sequence depth tests ≡ ok sequence → All (λ n. contains sequence n ≡ true) (names tests)
  test_sequence-lists e = (test_sequence-Keeps (λ _. Unit) tt (λ _ _ _ _ _ _. tt) e).1
