-- ===== src/Vkex/Dependency/Examples.antt =====
-- tools/vkex/parse_dependency.py: the expression `A,(B+C)` and its kin.
use teide.Base.{◌≡◌, refl, leb, Bool, true, ◌&&◌, ◌||◌, List, [], ◌∷◌, arith}
use teide.Base.Result.{Result, ok, raised}
use teide.Base.Text.{Text, text, text_eq, starts_with, contains}
use teide.Vkex.Dependency.{
  Letters, plus, comma, Expr, single, then_op, ident, group, Exception, name_error,
  evaluate_dependency, dependency_names,
}
use teide.Vkex.Dependency.Value.{value, misnamed, verdict, evaluate_dependency-value}
use teide.Vkex.Dependency.Names.{idents, dependency_names-idents, dependency_names-decide}
use teide.Vkex.Dependency.Language.{
  protect_language_c, dependency_language_c, dependency_language_comment,
}
use teide.Vkex.Dependency.Markup.{nil, cons, token, results, dependency_markup}

abbrev ascii : Letters
ascii = record {
  is_alpha = λ c. (leb b'A' c && leb c b'Z') || (leb b'a' c && leb c b'z');
  plus_is_none = refl;
  comma_is_none = refl;
}

-- `A,(B+C)+!D`
abbrev mixed : Expr
mixed =
    then_op
      (then_op (single (ident [] (text "A"))) comma
        (group [] (then_op (single (ident [] (text "B"))) plus (ident [] (text "C")))))
      plus (ident [] (text "!D"))

abbrev positive : Expr
positive =
    then_op (single (ident [] (text "A"))) comma
      (group [] (then_op (single (ident [] (text "B"))) plus (ident [] (text "C"))))

abbrev parse : Text → Result Exception Expr
parse dependency = ok positive

abbrev parse_mixed : Text → Result Exception Expr
parse_mixed dependency = ok mixed

abbrev just_a : Text → Bool
just_a n = text_eq n (text "A")

printed :
    protect_language_c ascii parse_mixed 9 (text "A,(B+C)+!D")
    ≡ ok (text "(defined(A) || (defined(B) && defined(C))) && !defined(D)")
unfolding protect_language_c text_eq starts_with
printed = refl

commented : dependency_language_comment ascii parse 9 (text "A,(B+C)") ≡ ok (text "A or (B and C)")
unfolding dependency_language_comment text_eq starts_with
commented = refl

-- The function for C expressions fails at the first name.
undefined_name : dependency_language_c ascii parse 9 (text "A,(B+C)") ≡ raised name_error
unfolding dependency_language_c text_eq starts_with
undefined_name = refl

marked :
    dependency_markup
      (λ n. n)
      (λ d. ok (
        cons
          (results (
            cons
              (token (text "A"))
              (cons (token (text "+")) (cons (results (cons (token (text "B")) nil)) nil))))
          nil))
      (text "A+(B)")
    ≡ ok (text "A +\nand +\n{nbsp}{nbsp}{nbsp}{nbsp} B +\n")
unfolding dependency_markup text_eq
marked = refl

evaluate_dependency-value_example :
    evaluate_dependency ascii parse 4 (text "A,(B+C)") just_a
    ≡ verdict (misnamed ascii positive) (value just_a positive)
unfolding text_eq starts_with
evaluate_dependency-value_example =
    evaluate_dependency-value ascii parse 4 (text "A,(B+C)") just_a positive refl (omega arith)
      (refl, (refl, refl))

dependency_names-idents_example :
    (found : List Text) × (dependency_names ascii parse 4 (text "A,(B+C)")
      ≡ verdict (misnamed ascii positive) found)
    × ((n : Text) → contains found n ≡ contains (idents positive) n)
unfolding text_eq starts_with
dependency_names-idents_example =
    dependency_names-idents ascii parse 4 (text "A,(B+C)") positive refl (omega arith)
      (refl, (refl, refl))

named : dependency_names ascii parse 4 (text "A,(B+C)") ≡ ok (text "C" ∷ text "B" ∷ text "A" ∷ [])
unfolding dependency_names text_eq starts_with
named = refl

dependency_names-decide_example :
    evaluate_dependency ascii parse 4 (text "A,(B+C)") (λ n. true) ≡ ok true
unfolding text_eq starts_with
dependency_names-decide_example =
    dependency_names-decide ascii parse 4 (text "A,(B+C)") positive
      (text "C" ∷ text "B" ∷ text "A" ∷ []) (λ n. true) true refl (omega arith) (refl, (refl, refl))
      named (refl, (refl, (refl, tt)))
