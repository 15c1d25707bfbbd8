-- ===== src/Vkex/Dependency/Fold.antt =====
-- tools/vkex/parse_dependency.py: the recursion that its functions on the stack share.
use teide.Base.{
  ◌≡◌, refl, ◌∙◌, ℕ, zero, suc, ◌≤◌, true, false, List, ◌∷◌, arith, ltb, if◌then◌else◌,
}
use teide.Base.Result.{Result, ok, raised, ◌>>=◌}
use teide.Base.Text.{Text, text_eq, starts_with}
use teide.Vkex.Dependency.{
  Op, plus, comma, op_text, Expr, single, then_op, Atom, ident, group, push_expr, push_atom,
  push_first, Exception, is_op,
}

-- No name is made of operators, or is empty.
abbrev mutual
  pub IsWorded : Expr → Type 0
  IsWorded (single a) = IsWordedAtom a
  IsWorded (then_op e op a) = IsWorded e × IsWordedAtom a

  pub IsWordedAtom : Atom → Type 0
  IsWordedAtom (ident ops name) = is_op name ≡ false
  IsWordedAtom (group ops e) = IsWorded e

abbrev max : ℕ → ℕ → ℕ
max a b = if ltb a b then b else a

-- How deep the calls nest.
abbrev mutual
  pub height : Expr → ℕ
  height (single a) = height_atom a
  height (then_op e op a) = suc (max (height e) (height_atom a))

  pub height_atom : Atom → ℕ
  height_atom (ident ops name) = 1
  height_atom (group ops e) = height e

max-le : (a b d : ℕ) → max a b ≤ d → (a ≤ d) × (b ≤ d)
max-le a b d h = ground arith

pub is_op-op_text : (op : Op) → is_op (op_text op) ≡ true
unfolding text_eq starts_with
is_op-op_text plus = refl
is_op-op_text comma = refl

-- What a name stands for, what an operator makes of two values, and what it tells the calls below it,
-- in the context of the operators above.
pub record Reading : Type 1 where
  pub Context : Type 0
  pub Meaning : Type 0
  pub leaf : Text → Result Exception Meaning
  pub node : Context → Op → Meaning → Meaning → Meaning
  pub below : Context → Op → Context

module _ (r : Reading) where
  -- The right operand is read first.
  abbrev mutual
    pub meaning : r.Context → Expr → Result Exception r.Meaning
    meaning c (single a) = meaning_atom c a
    meaning c (then_op e op a) = meaning_atom (r.below c op) a >>= λ second.
        meaning (r.below c op) e >>= λ first. ok (r.node c op first second)

    pub meaning_atom : r.Context → Atom → Result Exception r.Meaning
    meaning_atom c (ident ops name) = r.leaf name
    meaning_atom c (group ops e) = meaning c e

  abbrev pub Run : Type 0
  Run = ℕ → List Text → Result Exception (r.Meaning × List Text)

  abbrev pub both : r.Context → Op → Run → ℕ → List Text → Result Exception (r.Meaning × List Text)
  both c op run depth stack = run depth stack >>= λ second.
      run depth second.1 >>= λ first. ok (r.node c op first.0 second.0, first.1)

  abbrev pub left_over :
      List Text → Result Exception r.Meaning → Result Exception (r.Meaning × List Text)
  left_over stack m = m >>= λ v. ok (v, stack)

  both-left_over :
      (c : r.Context) (op : Op) (run : Run) (depth : ℕ) (stack s t : List Text)
      (m n : Result Exception r.Meaning)
      → run depth stack ≡ left_over s m
      → run depth s ≡ left_over t n
      → both c op run depth stack
        ≡ left_over t (m >>= λ second. n >>= λ first. ok (r.node c op first second))
  both-left_over c op run depth stack s t (ok v) (ok w) e f = rw (e, f) refl
  both-left_over c op run depth stack s t (ok v) (raised x) e f = rw (e, f) refl
  both-left_over c op run depth stack s t (raised x) n e f = rw e refl

  -- A function that pops the stack in this way, with as much depth as the calls nest.
  module _ (run : r.Context → Run)
      (run_op : (c : r.Context) (op : Op) (depth : ℕ) (stack : List Text)
        → run c (suc depth) (op_text op ∷ stack) ≡ both c op (run (r.below c op)) depth stack)
      (run_name : (c : r.Context) (name : Text) (depth : ℕ) (stack : List Text)
        → is_op name ≡ false
        → run c (suc depth) (name ∷ stack) ≡ left_over stack (r.leaf name)) where
    mutual
      unfolding push_expr push_first

      run-push_expr :
          (e : Expr) (c : r.Context) (depth : ℕ) (stack : List Text)
          → height e ≤ depth
          → IsWorded e
          → run c depth (push_expr e stack) ≡ left_over stack (meaning c e)
      run-push_expr (single a) c depth stack deep words = run-push_atom a c depth stack deep words
      run-push_expr (then_op e op a) c zero stack deep words = absurd (omega arith)
      run-push_expr (then_op e op a) c (suc depth) stack deep words =
          let (left, right) = max-le (height e) (height_atom a) depth (omega arith) in
          let c' = r.below c op in
          run_op c op depth (push_atom a (push_expr e stack))
          ∙ both-left_over c op (run c') depth (push_atom a (push_expr e stack)) (push_expr e stack)
              stack (meaning_atom c' a) (meaning c' e)
              (run-push_atom a c' depth (push_expr e stack) right words.1)
              (run-push_expr e c' depth stack left words.0)

      run-push_atom :
          (a : Atom) (c : r.Context) (depth : ℕ) (stack : List Text)
          → height_atom a ≤ depth
          → IsWordedAtom a
          → run c depth (push_atom a stack) ≡ left_over stack (meaning_atom c a)
      run-push_atom (ident ops name) c zero stack deep words = absurd (omega arith)
      run-push_atom (ident ops name) c (suc depth) stack deep words =
          run_name c name depth stack words
      run-push_atom (group ops e) c depth stack deep words =
          run-push_expr e c depth stack deep words

    pub run_lem :
        (e : Expr) (c : r.Context) (depth : ℕ) (stack : List Text)
        → height e ≤ depth
        → IsWorded e
        → run c depth (push_expr e stack) ≡ left_over stack (meaning c e)
    run_lem e c depth stack deep words = run-push_expr e c depth stack deep words
