-- ===== src/Vkex/Dependency/Language.antt =====
-- tools/vkex/parse_dependency.py: an expression in words, or in C.
use teide.Base.{
  ℕ, zero, suc, Bool, true, false, not, ◌&&◌, ◌||◌, List, [], ◌∷◌, ◌++◌, Option, none, some,
  if◌then◌else◌,
}
use teide.Base.Result.{Result, ok, raised, ◌>>=◌}
use teide.Base.Text.{Text, text, text_eq, starts_with}
use teide.Vkex.Dependency.{
  Letters, Expr, push_expr, Exception, index_error, key_error, name_error, recursion_error,
  invalid_op, is_op, starts_alpha,
}

unfoldable pub markup_passthrough : Text → Result Exception Text
markup_passthrough name = ok name

-- `apiVersionNameMatch` is not defined in this file, and not imported.
unfoldable pub leaf_markup_c : Text → Result Exception Text
leaf_markup_c name = raised name_error

abbrev pub without_first : Text → Text
without_first [] = []
without_first (c ∷ name) = name

unfoldable pub leaf_markup_c_protect : Text → Result Exception Text
leaf_markup_c_protect name =
    if starts_with name (text "!")
    then ok (text "!defined(" ++ (without_first name ++ text ")"))
    else ok (text "defined(" ++ (name ++ text ")"))

-- A look-up in one of the maps of operators.
abbrev pub op_markup : Text → Text → Text → Result Exception Text
op_markup for_plus for_comma op =
    if text_eq op (text "+")
    then ok for_plus
    else if text_eq op (text ",")
    then ok for_comma
    else raised key_error

unfoldable pub op_markup_asciidoc : Text → Result Exception Text
op_markup_asciidoc = op_markup (text "and") (text "or")

unfoldable pub op_markup_c : Text → Result Exception Text
op_markup_c = op_markup (text "&&") (text "||")

-- `op[0].isalpha() or (op.startswith('!') and len(op) > 1 and op[1].isalpha())`
abbrev pub is_leaf : Letters → Text → Bool
is_leaf l op = starts_alpha l op || (starts_with op (text "!") && starts_alpha l (without_first op))

-- The operator above, if it is another one than this.
abbrev pub differs : Option Text → Text → Bool
differs none op = false
differs (some parent_op) op = not (text_eq parent_op op)

module _ (l : Letters) (leaf_markup op_markup : Text → Result Exception Text)
    (parenthesize : Bool) where
  unfoldable pub eval_dependency_language :
      Bool → Option Text → ℕ → List Text → Result Exception (Text × List Text)
  eval_dependency_language root parent_op zero stack = raised recursion_error
  eval_dependency_language root parent_op (suc depth) [] = raised index_error
  eval_dependency_language root parent_op (suc depth) (op ∷ stack) =
      let both = eval_dependency_language false (some op) depth stack >>= λ rhs.
      op_markup op >>= λ opname. eval_dependency_language false (some op) depth rhs.1 >>= λ lhs.
      (let plain = lhs.0 ++ (text " " ++ (opname ++ (text " " ++ rhs.0))) in
        ok (
          (if parenthesize && (not root && differs parent_op op)
              then text "(" ++ (plain ++ text ")")
              else plain),
          lhs.1,
        )) in
      if is_op op
      then both
      else if is_leaf l op
      then (leaf_markup op >>= λ marked. ok (marked, stack))
      else raised (invalid_op op)

module _ (l : Letters) (parse : Text → Result Exception Expr) (depth : ℕ) where
  unfoldable pub dependency_language :
      Text
      → (Text → Result Exception Text)
      → (Text → Result Exception Text)
      → Bool
      → Result Exception Text
  unfolding eval_dependency_language push_expr
  dependency_language dependency leaf_markup op_markup parenthesize =
      parse dependency >>= λ results.
      eval_dependency_language l leaf_markup op_markup parenthesize true none depth
        (push_expr results [])
      >>= λ r. ok r.0

  unfoldable pub dependency_language_comment : Text → Result Exception Text
  unfolding dependency_language markup_passthrough op_markup_asciidoc
  dependency_language_comment dependency =
      dependency_language dependency markup_passthrough op_markup_asciidoc true

  -- `leaf_markup_asciidoc` is the conventions object's `formatVersionOrExtension`.
  unfoldable pub dependency_language_spec_macros :
      (Text → Result Exception Text) → Text → Result Exception Text
  unfolding dependency_language op_markup_asciidoc
  dependency_language_spec_macros leaf_markup_asciidoc dependency =
      dependency_language dependency leaf_markup_asciidoc op_markup_asciidoc false

  unfoldable pub dependency_language_c : Text → Result Exception Text
  unfolding dependency_language leaf_markup_c op_markup_c
  dependency_language_c dependency = dependency_language dependency leaf_markup_c op_markup_c true

  -- Here `parse` is what the parser built by `protectBNF` finds.
  unfoldable pub protect_language_c : Text → Result Exception Text
  unfolding dependency_language leaf_markup_c_protect op_markup_c
  protect_language_c protect = dependency_language protect leaf_markup_c_protect op_markup_c true
