-- ===== src/Vkex/Dependency.antt =====
-- tools/vkex/parse_dependency.py: the expressions of `depends`, and their evaluation on a stack.
pub mod Language
pub mod Markup
pub mod Fold
pub mod Value
pub mod Names
pub mod Denotation
mod Examples
use teide.Base.{
  ◌≡◌, ℕ, zero, suc, Bool, true, false, not, ◌&&◌, ◌||◌, List, [], ◌∷◌, ◌++◌, if◌then◌else◌, keep,
}
use teide.Base.Result.{Result, ok, raised, ◌>>=◌}
use teide.Base.Text.{Text, text, text_eq, has_text, contains}

-- `str.isalpha` of a character, with what the code relies on.
pub record Letters : Type 0 where
  pub is_alpha : ℕ → Bool
  pub plus_is_none : is_alpha b'+' ≡ false
  pub comma_is_none : is_alpha b',' ≡ false

pub data Op : Type 0 where
  plus : Op
  comma : Op

abbrev pub op_text : Op → Text
op_text plus = text "+"
op_text comma = text ","

-- What `dependencyBNF` and `protectBNF` derive: an expression is an atom, or an expression with an
-- operator and one more atom. The operators before an atom are read and have no effect.
mutual
  pub data Expr : Type 0 where
    single : Atom → Expr
    then_op : Expr → Op → Atom → Expr

  pub data Atom : Type 0 where
    ident : List Op → Text → Atom
    group : List Op → Expr → Atom

-- The stack is a list with its top first. `push_first` pushes a name where it is read, and an operator
-- once its right operand is read.
unfoldable pub push_first : Text → List Text → List Text
push_first tok expr_stack = tok ∷ expr_stack

unfoldable mutual
  unfolding push_first

  pub push_expr : Expr → List Text → List Text
  push_expr (single a) expr_stack = push_atom a expr_stack
  push_expr (then_op e op a) expr_stack =
      push_first (op_text op) (push_atom a (push_expr e expr_stack))

  pub push_atom : Atom → List Text → List Text
  push_atom (ident ops name) expr_stack = push_first name expr_stack
  push_atom (group ops e) expr_stack = push_expr e expr_stack

pub data Exception : Type 0 where
  index_error : Exception
  key_error : Exception
  name_error : Exception
  recursion_error : Exception
  parse_exception : Exception
  invalid_op : Text → Exception

-- `_opn[op](op1, op2)`
abbrev pub apply_op : Text → Bool → Bool → Result Exception Bool
apply_op op op1 op2 =
    if text_eq op (text "+")
    then ok (op1 && op2)
    else if text_eq op (text ",")
    then ok (op1 || op2)
    else raised key_error

-- `op in '+,'`
abbrev pub is_op : Text → Bool
is_op op = has_text (text "+,") op

-- `op[0].isalpha()`
abbrev pub starts_alpha : Letters → Text → Bool
starts_alpha l [] = false
starts_alpha l (c ∷ op) = l.is_alpha c

module _ (l : Letters) where
  -- The first argument is the depth of calls that the interpreter allows. The result is the value with
  -- what is left of the stack.
  unfoldable pub evaluate_stack :
      (Text → Bool) → ℕ → List Text → Result Exception (Bool × List Text)
  evaluate_stack is_supported zero stack = raised recursion_error
  evaluate_stack is_supported (suc depth) [] = raised index_error
  evaluate_stack is_supported (suc depth) (op ∷ stack) =
      let both = evaluate_stack is_supported depth stack >>= λ second.
      evaluate_stack is_supported depth second.1 >>= λ first.
      apply_op op first.0 second.0 >>= λ value. ok (value, first.1) in
      if is_op op
      then both
      else if starts_alpha l op
      then ok (is_supported op, stack)
      else raised (invalid_op op)

  -- `|` of two sets, as lists of their elements.
  abbrev pub union : List Text → List Text → List Text
  union xs ys = xs ++ keep (λ y. not (contains xs y)) ys

  unfoldable pub eval_dependency_names : ℕ → List Text → Result Exception (List Text × List Text)
  eval_dependency_names zero stack = raised recursion_error
  eval_dependency_names (suc depth) [] = raised index_error
  eval_dependency_names (suc depth) (op ∷ stack) =
      let both = eval_dependency_names depth stack >>= λ left.
      eval_dependency_names depth left.1 >>= λ right. ok (union left.0 right.0, right.1) in
      if is_op op
      then both
      else if starts_alpha l op
      then ok (op ∷ [], stack)
      else raised (invalid_op op)

  -- `parse` is what the parser built by `dependencyBNF` finds in a text.
  module _ (parse : Text → Result Exception Expr) (depth : ℕ) where
    unfoldable pub evaluate_dependency : Text → (Text → Bool) → Result Exception Bool
    unfolding evaluate_stack push_expr
    evaluate_dependency dependency is_supported = parse dependency >>= λ results.
        evaluate_stack is_supported depth (push_expr results []) >>= λ val. ok val.0

    unfoldable pub dependency_names : Text → Result Exception (List Text)
    unfolding eval_dependency_names push_expr
    dependency_names dependency = parse dependency >>= λ results.
        eval_dependency_names depth (push_expr results []) >>= λ found. ok found.0
