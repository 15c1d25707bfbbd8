-- ===== src/Vkex/Dependency/Markup.antt =====
-- tools/vkex/parse_dependency.py: an expression as an indented list in asciidoctor markup.
use teide.Base.{ℕ, zero, suc, ◌*◌, Bool, true, false, ◌||◌, [], ◌++◌, if◌then◌else◌}
use teide.Base.Result.{Result, ok, ◌>>=◌}
use teide.Base.Text.{Text, text, text_eq}
use teide.Vkex.Dependency.{Exception}
use teide.Vkex.Dependency.Language.{op_markup_asciidoc}

-- What pyparsing's `infix_notation` gives: tokens, and lists of them where a group stands.
mutual
  pub data Elem : Type 0 where
    token : Text → Elem
    results : Elems → Elem

  pub data Elems : Type 0 where
    nil : Elems
    cons : Elem → Elems → Elems

-- `s * n`
abbrev pub times : ℕ → Text → Text
times zero s = []
times (suc n) s = s ++ times n s

abbrev prefix_of : ℕ → Text
prefix_of zero = []
prefix_of (suc level) = times (suc level * 2) (text "{nbsp}{nbsp}") ++ text " "

module _ (leaf_markup_asciidoc : Text → Text) where
  abbrev elem_markup : Text → Result Exception Text
  elem_markup elem =
      if text_eq elem (text "+") || text_eq elem (text ",")
      then op_markup_asciidoc elem
      else ok (leaf_markup_asciidoc elem)

  -- Nested results are indented by one level more, except below the outermost expression.
  unfoldable mutual
    unfolding op_markup_asciidoc

    pub markup_traverse : Elems → ℕ → Bool → Result Exception Text
    markup_traverse nil level root = ok []
    markup_traverse (cons elem expr) level root = markup_elem elem level root >>= λ first.
        markup_traverse expr level root >>= λ rest. ok (first ++ rest)

    pub markup_elem : Elem → ℕ → Bool → Result Exception Text
    markup_elem (token t) level root =
        elem_markup t >>= λ marked. ok (prefix_of level ++ (marked ++ text " +\n"))
    markup_elem (results expr) level root =
        markup_traverse expr (if root then level else suc level) false

  unfoldable pub dependency_markup : (Text → Result Exception Elems) → Text → Result Exception Text
  unfolding markup_traverse
  dependency_markup parse dependency = parse dependency >>= λ parsed. markup_traverse parsed 0 true
