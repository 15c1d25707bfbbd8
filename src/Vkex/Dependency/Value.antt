-- ===== src/Vkex/Dependency/Value.antt =====
-- tools/vkex/parse_dependency.py: what the evaluation of an expression gives.
use teide.Base.{
  ◌≡◌, refl, ℕ, suc, ◌≤◌, Bool, false, ◌&&◌, ◌||◌, List, [], ◌∷◌, Option, none, some, Bool-cases,
  inl, inr, if◌then◌else◌,
}
use teide.Base.Result.{Result, ok, raised, ◌>>=◌}
use teide.Base.Text.{Text, text_eq, starts_with}
use teide.Vkex.Dependency.{
  Letters, Op, plus, comma, op_text, Expr, single, then_op, Atom, ident, group, Exception,
  invalid_op, is_op, starts_alpha, evaluate_stack, evaluate_dependency,
}
use teide.Vkex.Dependency.Fold.{
  IsWorded, height, Reading, meaning, meaning_atom, both, left_over, run_lem,
}

abbrev pub op_value : Op → Bool → Bool → Bool
op_value plus a b = a && b
op_value comma a b = a || b

-- The value of an expression, from left to right.
abbrev mutual
  pub value : (Text → Bool) → Expr → Bool
  value is_supported (single a) = value_atom is_supported a
  value is_supported (then_op e op a) =
      op_value op (value is_supported e) (value_atom is_supported a)

  pub value_atom : (Text → Bool) → Atom → Bool
  value_atom is_supported (ident ops name) = is_supported name
  value_atom is_supported (group ops e) = value is_supported e

abbrev pub or_else : Option Text → Option Text → Option Text
or_else none o = o
or_else (some n) o = some n

-- The last name that does not begin with a letter.
abbrev mutual
  pub misnamed : Letters → Expr → Option Text
  misnamed l (single a) = misnamed_atom l a
  misnamed l (then_op e op a) = or_else (misnamed_atom l a) (misnamed l e)

  pub misnamed_atom : Letters → Atom → Option Text
  misnamed_atom l (ident ops name) = if starts_alpha l name then none else some name
  misnamed_atom l (group ops e) = misnamed l e

-- A value, or the exception for a name.
abbrev pub verdict : {A : Type 0} → Option Text → A → Result Exception A
verdict none v = ok v
verdict (some name) v = raised (invalid_op name)

-- An exception for the later operand comes first.
pub verdict-or_else :
    {A B : Type 0} (m n : Option Text) (v : A) (w : A) (f : A → A → B)
    → (verdict m v >>= λ second. verdict n w >>= λ first. ok (f first second))
      ≡ verdict (or_else m n) (f w v)
verdict-or_else none none v w f = refl
verdict-or_else none (some name) v w f = refl
verdict-or_else (some name) n v w f = refl

module _ (l : Letters) (is_supported : Text → Bool) where
  abbrev truth : Reading
  truth = record {
    Context = Unit {0};
    Meaning = Bool;
    leaf = λ name. verdict (misnamed_atom l (ident [] name)) (is_supported name);
    node = λ c op a b. op_value op a b;
    below = λ c op. c;
  }

  abbrev evaluate : Unit {0} → ℕ → List Text → Result Exception (Bool × List Text)
  evaluate c = evaluate_stack l is_supported

  evaluate_op :
      (c : Unit {0}) (op : Op) (depth : ℕ) (stack : List Text)
      → evaluate c (suc depth) (op_text op ∷ stack) ≡ both truth c op (evaluate c) depth stack
  unfolding evaluate_stack text_eq starts_with
  evaluate_op c plus depth stack = refl
  evaluate_op c comma depth stack = refl

  evaluate_name :
      (c : Unit {0}) (name : Text) (depth : ℕ) (stack : List Text)
      → is_op name ≡ false
      → evaluate c (suc depth) (name ∷ stack) ≡ left_over truth stack (truth.leaf name)
  unfolding evaluate_stack
  evaluate_name c name depth stack word = elim (Bool-cases (starts_alpha l name)) [
    | inl good ↦ rw (evaluate_stack, word, good) refl
    | inr bad ↦ rw (evaluate_stack, word, bad) refl
  ]

  mutual
    meaning-verdict :
        (e : Expr) → meaning truth tt e ≡ verdict (misnamed l e) (value is_supported e)
    meaning-verdict (single a) = meaning_atom-verdict a
    meaning-verdict (then_op e op a) =
        rw (meaning_atom-verdict a, meaning-verdict e)
          (verdict-or_else (misnamed_atom l a) (misnamed l e) (value_atom is_supported a)
            (value is_supported e) (op_value op))

    meaning_atom-verdict :
        (a : Atom)
        → meaning_atom truth tt a ≡ verdict (misnamed_atom l a) (value_atom is_supported a)
    meaning_atom-verdict (ident ops name) = refl
    meaning_atom-verdict (group ops e) = meaning-verdict e

  without_stack :
      (m : Option Text) (v : Bool)
      → (left_over truth [] (verdict m v) >>= λ val. ok val.0) ≡ verdict m v
  without_stack none v = refl
  without_stack (some name) v = refl

-- With enough depth, a dependency has the value of its expression, read from left to right with no
-- precedence, unless one of its names does not begin with a letter: then the last such name is
-- reported.
pub evaluate_dependency-value :
    (l : Letters) (parse : Text → Result Exception Expr) (depth : ℕ) (dependency : Text)
    (is_supported : Text → Bool) (e : Expr)
    → parse dependency ≡ ok e
    → height e ≤ depth
    → IsWorded e
    → evaluate_dependency l parse depth dependency is_supported
      ≡ verdict (misnamed l e) (value is_supported e)
unfolding evaluate_dependency
evaluate_dependency-value l parse depth dependency is_supported e parsed deep words =
    let run =
      run_lem (truth l is_supported) (evaluate l is_supported) (evaluate_op l is_supported)
        (evaluate_name l is_supported) e tt depth [] deep words in
    rw (evaluate_dependency, parsed, run, meaning-verdict l is_supported e)
      (without_stack l is_supported (misnamed l e) (value is_supported e))
