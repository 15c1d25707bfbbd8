-- ===== src/Vkex/Dependency/Names.antt =====
-- tools/vkex/parse_dependency.py: the names of an expression.
use teide.Base.{
  ◌≡◌, refl, sym, ◌∙◌, ap, ℕ, suc, ◌≤◌, Bool, true, false, not, ◌||◌, List, [], ◌∷◌, ◌++◌, Option,
  none, some, All, keep, arith, Bool-cases, inl, inr,
}
use teide.Base.Result.{Result, ok, ◌>>=◌}
use teide.Base.Text.{
  Text, text_eq, text_eq_iff, text_eq_refl, starts_with, contains, contains-append,
}
use teide.Vkex.Dependency.{
  Letters, Op, plus, comma, op_text, Expr, single, then_op, Atom, ident, group, Exception, is_op,
  starts_alpha, union, eval_dependency_names, dependency_names, evaluate_dependency,
}
use teide.Vkex.Dependency.Fold.{
  IsWorded, height, Reading, meaning, meaning_atom, both, left_over, run_lem,
}
use teide.Vkex.Dependency.Value.{
  op_value, value, value_atom, misnamed, misnamed_atom, verdict, verdict-or_else,
  evaluate_dependency-value,
}

-- The names from left to right.
abbrev mutual
  pub idents : Expr → List Text
  idents (single a) = idents_atom a
  idents (then_op e op a) = idents e ++ idents_atom a

  pub idents_atom : Atom → List Text
  idents_atom (ident ops name) = name ∷ []
  idents_atom (group ops e) = idents e

contains-keep :
    (p : Text → Bool) (ys : List Text) (n : Text)
    → contains (keep (λ y. p y) ys) n ≡ true
    → contains ys n ≡ true
contains-keep p [] n h = h
contains-keep p (y ∷ ys) n h = ground (arith, contains-keep p ys n)

contains-keep_new :
    (xs ys : List Text) (n : Text)
    → (contains xs n || contains (keep (λ y. not (contains xs y)) ys) n)
      ≡ (contains xs n || contains ys n)
contains-keep_new xs [] n = refl
contains-keep_new xs (y ∷ ys) n = elim (Bool-cases (text_eq n y)) [
  | inl same ↦
      let e = ap (contains xs) ((text_eq_iff n y).0 same) in
      ground (arith, contains-keep_new xs ys n)
  | inr other ↦ ground (arith, contains-keep_new xs ys n)
]

module _ (l : Letters) where
  abbrev name_set : Reading
  name_set = record {
    Context = Unit {0};
    Meaning = List Text;
    leaf = λ name. verdict (misnamed_atom l (ident [] name)) (name ∷ []);
    node = λ c op a b. union l b a;
    below = λ c op. c;
  }

  abbrev collect : Unit {0} → ℕ → List Text → Result Exception (List Text × List Text)
  collect c = eval_dependency_names l

  collect_op :
      (c : Unit {0}) (op : Op) (depth : ℕ) (stack : List Text)
      → collect c (suc depth) (op_text op ∷ stack) ≡ both name_set c op (collect c) depth stack
  unfolding eval_dependency_names text_eq starts_with
  collect_op c plus depth stack = refl
  collect_op c comma depth stack = refl

  collect_name :
      (c : Unit {0}) (name : Text) (depth : ℕ) (stack : List Text)
      → is_op name ≡ false
      → collect c (suc depth) (name ∷ stack) ≡ left_over name_set stack (name_set.leaf name)
  unfolding eval_dependency_names
  collect_name c name depth stack word = elim (Bool-cases (starts_alpha l name)) [
    | inl good ↦ rw (eval_dependency_names, word, good) refl
    | inr bad ↦ rw (eval_dependency_names, word, bad) refl
  ]

  abbrev Collected : Option Text → List Text → Result Exception (List Text) → Type 0
  Collected m names r =
      (found : List Text) × (r ≡ verdict m found)
      × ((n : Text) → contains found n ≡ contains names n)

  mutual
    meaning-Collected : (e : Expr) → Collected (misnamed l e) (idents e) (meaning name_set tt e)
    meaning-Collected (single a) = meaning_atom-Collected a
    meaning-Collected (then_op e op a) =
        let (xs, e1, same) = meaning_atom-Collected a in
        let (ys, e2, same') = meaning-Collected e in
        (
          union l xs ys,
          rw (e1, e2)
              (verdict-or_else (misnamed_atom l a) (misnamed l e) xs ys (λ a b. union l b a)),
          λ n.
              contains-append xs (keep (λ y. not (contains xs y)) ys) n
              ∙ contains-keep_new xs ys n
              ∙ ground (arith, same n, same' n, contains-append (idents e) (idents_atom a) n),
        )

    meaning_atom-Collected :
        (a : Atom) → Collected (misnamed_atom l a) (idents_atom a) (meaning_atom name_set tt a)
    meaning_atom-Collected (ident ops name) = (name ∷ [], refl, λ n. refl)
    meaning_atom-Collected (group ops e) = meaning-Collected e

without_stack :
    (l : Letters) (m : Option Text) (v : List Text)
    → (left_over (name_set l) [] (verdict m v) >>= λ found. ok found.0) ≡ verdict m v
without_stack l none v = refl
without_stack l (some name) v = refl

-- With enough depth, the names are those that stand in the expression, unless one of them does not
-- begin with a letter: then the last such name is reported.
pub dependency_names-idents :
    (l : Letters) (parse : Text → Result Exception Expr) (depth : ℕ) (dependency : Text) (e : Expr)
    → parse dependency ≡ ok e
    → height e ≤ depth
    → IsWorded e
    → (found : List Text) × (dependency_names l parse depth dependency
        ≡ verdict (misnamed l e) found)
      × ((n : Text) → contains found n ≡ contains (idents e) n)
unfolding dependency_names
dependency_names-idents l parse depth dependency e parsed deep words =
    let run =
      run_lem (name_set l) (collect l) (collect_op l) (collect_name l) e tt depth [] deep words in
    let (found, is_found, same) = meaning-Collected l e in
    (
      found,
      rw (dependency_names, parsed, run, is_found) (without_stack l (misnamed l e) found),
      same,
    )

op_value_same : (op : Op) (b : Bool) → op_value op b b ≡ b
op_value_same plus true = refl
op_value_same plus false = refl
op_value_same comma true = refl
op_value_same comma false = refl

module _ (is_supported : Text → Bool) (b : Bool) where
  mutual
    value_same :
        (e : Expr)
        → ((n : Text) → contains (idents e) n ≡ true → is_supported n ≡ b)
        → value is_supported e ≡ b
    value_same (single a) h = value_atom_same a h
    value_same (then_op e op a) h =
        let left =
          value_same e
            (λ n there. h n (ground (arith, contains-append (idents e) (idents_atom a) n))) in
        let right =
          value_atom_same a
            (λ n there. h n (ground (arith, contains-append (idents e) (idents_atom a) n))) in
        rw (left, right) (op_value_same op b)

    value_atom_same :
        (a : Atom)
        → ((n : Text) → contains (idents_atom a) n ≡ true → is_supported n ≡ b)
        → value_atom is_supported a ≡ b
    value_atom_same (ident ops name) h = h name (ground (arith, text_eq_refl name))
    value_atom_same (group ops e) h = value_same e h

All-contains :
    (P : Text → Type 0) (xs : List Text) (n : Text) → All P xs → contains xs n ≡ true → P n
All-contains P [] n all there = cc
All-contains P (x ∷ xs) n all there = elim (Bool-cases (text_eq n x)) [
  | inl same ↦ rw ((text_eq_iff n x).0 same) all.0
  | inr other ↦ All-contains P xs n all.1 (ground arith)
]

verdict_ok : {A : Type 0} (m : Option Text) (v w : A) → verdict m v ≡ ok w → (m ≡ none) × (v ≡ w)
verdict_ok none v w e = (refl, cc)
verdict_ok (some name) v w e = cc

-- Where the names of a dependency are all supported, it is satisfied, and where none of them is, it is
-- not, so far as they can be found.
pub dependency_names-decide :
    (l : Letters) (parse : Text → Result Exception Expr) (depth : ℕ) (dependency : Text) (e : Expr)
    (names : List Text) (is_supported : Text → Bool) (b : Bool)
    → parse dependency ≡ ok e
    → height e ≤ depth
    → IsWorded e
    → dependency_names l parse depth dependency ≡ ok names
    → All (λ n. is_supported n ≡ b) names
    → evaluate_dependency l parse depth dependency is_supported ≡ ok b
dependency_names-decide l parse depth dependency e names is_supported b parsed deep words found
      all =
    let (xs, is_found, same) =
      dependency_names-idents l parse depth dependency e parsed deep words in
    let (well, equal) = verdict_ok (misnamed l e) xs names (sym is_found ∙ found) in
    let decided = value_same is_supported b e λ n there.
      All-contains (λ n. is_supported n ≡ b) names n all
        (ap (λ l. contains l n) (sym equal) ∙ same n ∙ there) in
    evaluate_dependency-value l parse depth dependency is_supported e parsed deep words
    ∙ rw (well, decided) refl
