-- ===== src/Vkex/Dependency/Denotation.antt =====
-- tools/vkex/parse_dependency.py: the C condition for a protection, read by C's grammar.
use teide.Base.{
  ◌≡◌, refl, sym, ◌∙◌, ap, ℕ, Bool, true, false, not, ◌&&◌, ◌||◌, List, [], ◌∷◌, ◌++◌, Option, none,
  some, all, ◌==◌, leb, append_assoc, Bool-cases, inl, inr, if◌then◌else◌,
}
use teide.Base.Result.{Result, ok, raised}
use teide.Base.Text.{Text, text, starts_with}
use teide.Vkex.Dependency.{
  Letters, Op, plus, comma, op_text, Expr, single, then_op, Atom, ident, group, Exception,
  invalid_op,
}
use teide.Vkex.Dependency.Fold.{Reading, meaning, meaning_atom}
use teide.Vkex.Dependency.Value.{op_value, value, value_atom}
use teide.Vkex.Dependency.Language.{
  leaf_markup_c_protect, op_markup_c, is_leaf, eval_dependency_language, without_first,
}

pub data Level : Type 0 where
  primary : Level
  conjunction : Level
  disjunction : Level

-- A letter or `_`
is_start : ℕ → Bool
is_start c = (leb b'A' c && leb c b'Z') || ((leb b'a' c && leb c b'z') || c == b'_')

-- An identifier of C: letters, digits and `_`, of which a digit is not the first.
unfoldable pub is_identifier : Text → Bool
unfolding is_start
is_identifier [] = false
is_identifier (c ∷ n) = is_start c && all (λ d. is_start d || (leb b'0' d && leb d b'9')) n

-- The C conditions over `defined`, with `&&` before `||`, and their values.
pub data Denotes (is_defined : Text → Bool) : Level → Text → Bool → Type 0 where
  name :
      (n t : Text)
      → is_identifier n ≡ true
      → t ≡ text "defined(" ++ (n ++ text ")")
      → Denotes is_defined primary t (is_defined n)
  negated :
      (n t : Text) (b : Bool)
      → is_identifier n ≡ true
      → t ≡ text "!defined(" ++ (n ++ text ")")
      → b ≡ not (is_defined n)
      → Denotes is_defined primary t b
  parens :
      {s : Text} {b : Bool} (t : Text)
      → t ≡ text "(" ++ (s ++ text ")")
      → Denotes is_defined disjunction s b
      → Denotes is_defined primary t b
  from_primary :
      {t : Text} {b : Bool} → Denotes is_defined primary t b → Denotes is_defined conjunction t b
  conj :
      {s t : Text} {a b : Bool} (u : Text) (c : Bool)
      → u ≡ s ++ (text " && " ++ t)
      → c ≡ (a && b)
      → Denotes is_defined conjunction s a
      → Denotes is_defined primary t b
      → Denotes is_defined conjunction u c
  from_conjunction :
      {t : Text} {b : Bool}
      → Denotes is_defined conjunction t b
      → Denotes is_defined disjunction t b
  disj :
      {s t : Text} {a b : Bool} (u : Text) (c : Bool)
      → u ≡ s ++ (text " || " ++ t)
      → c ≡ (a || b)
      → Denotes is_defined disjunction s a
      → Denotes is_defined conjunction t b
      → Denotes is_defined disjunction u c

and_assoc : (a b c : Bool) → ((a && b) && c) ≡ (a && (b && c))
and_assoc true b c = refl
and_assoc false b c = refl

or_assoc : (a b c : Bool) → ((a || b) || c) ≡ (a || (b || c))
or_assoc true b c = refl
or_assoc false b c = refl

abbrev level_of : Option Op → Level
level_of none = disjunction
level_of (some plus) = conjunction
level_of (some comma) = disjunction

abbrev c_op : Op → Text
c_op plus = text "&&"
c_op comma = text "||"

abbrev plain : Op → Text → Text → Text
plain op s t = s ++ (text " " ++ (c_op op ++ (text " " ++ t)))

module _ (is_defined : Text → Bool) where
  conj_join :
      {s t : Text} {a b : Bool}
      → Denotes is_defined conjunction s a
      → Denotes is_defined conjunction t b
      → Denotes is_defined conjunction (s ++ (text " && " ++ t)) (a && b)
  conj_join {s} {t} {a} {b} d (from_primary p) = conj _ _ refl refl d p
  conj_join {s} {t} {a} {b} d (conj {s = t1} {t = t2} {a = b1} {b = b2} u c e f d' p) =
      conj _ _
        (ap (λ v. s ++ (text " && " ++ v)) e
          ∙ sym (append_assoc s (text " && " ++ t1) (text " && " ++ t2)))
        (ap (λ v. a && v) f ∙ sym (and_assoc a b1 b2)) (conj_join d d') p

  disj_join :
      {s t : Text} {a b : Bool}
      → Denotes is_defined disjunction s a
      → Denotes is_defined disjunction t b
      → Denotes is_defined disjunction (s ++ (text " || " ++ t)) (a || b)
  disj_join {s} {t} {a} {b} d (from_conjunction p) = disj _ _ refl refl d p
  disj_join {s} {t} {a} {b} d (disj {s = t1} {t = t2} {a = b1} {b = b2} u c e f d' p) =
      disj _ _
        (ap (λ v. s ++ (text " || " ++ v)) e
          ∙ sym (append_assoc s (text " || " ++ t1) (text " || " ++ t2)))
        (ap (λ v. a || v) f ∙ sym (or_assoc a b1 b2)) (disj_join d d') p

  join :
      (op : Op) {s t : Text} {a b : Bool}
      → Denotes is_defined (level_of (some op)) s a
      → Denotes is_defined (level_of (some op)) t b
      → Denotes is_defined (level_of (some op)) (plain op s t) (op_value op a b)
  join plus d e = conj_join d e
  join comma d e = disj_join d e

-- The name without the `!` before it.
abbrev pub bare : Text → Text
bare n = if starts_with n (text "!") then without_first n else n

-- Every name is one, and is an identifier of C, with or without `!` before it.
abbrev mutual
  pub IsNamed : Letters → Expr → Type 0
  IsNamed l (single a) = IsNamedAtom l a
  IsNamed l (then_op e op a) = IsNamed l e × IsNamedAtom l a

  pub IsNamedAtom : Letters → Atom → Type 0
  IsNamedAtom l (ident ops n) = (is_leaf l n ≡ true) × (is_identifier (bare n) ≡ true)
  IsNamedAtom l (group ops e) = IsNamed l e

-- What a name means for a protection: `!` negates it.
abbrev pub is_protected : (Text → Bool) → Text → Bool
is_protected is_defined n =
    if starts_with n (text "!") then not (is_defined (without_first n)) else is_defined n

abbrev wrapped : Option Op → Op → Text → Text
wrapped none op t = t
wrapped (some plus) plus t = t
wrapped (some plus) comma t = text "(" ++ (t ++ text ")")
wrapped (some comma) plus t = text "(" ++ (t ++ text ")")
wrapped (some comma) comma t = t

module _ (l : Letters) (is_defined : Text → Bool) where
  abbrev condition : Reading
  condition = record {
    Context = Option Op;
    Meaning = Text;
    leaf = λ n. if is_leaf l n then leaf_markup_c_protect n else raised (invalid_op n);
    node = λ c op s t. wrapped c op (plain op s t);
    below = λ c op. some op;
  }

  abbrev print : Option Op → ℕ → List Text → Result Exception (Text × List Text)
  print none = eval_dependency_language l leaf_markup_c_protect op_markup_c true true none
  print (some op) =
      eval_dependency_language l leaf_markup_c_protect op_markup_c true false (some (op_text op))

  lift_conjunction :
      (c : Option Op) {t : Text} {b : Bool}
      → Denotes is_defined primary t b
      → Denotes is_defined (level_of c) t b
  lift_conjunction none d = from_conjunction (from_primary d)
  lift_conjunction (some plus) d = from_primary d
  lift_conjunction (some comma) d = from_conjunction (from_primary d)

  wrap :
      (c : Option Op) (op : Op) (t : Text) (b : Bool)
      → Denotes is_defined (level_of (some op)) t b
      → Denotes is_defined (level_of c) (wrapped c op t) b
  wrap none plus t b d = from_conjunction d
  wrap none comma t b d = d
  wrap (some plus) plus t b d = d
  wrap (some plus) comma t b d = from_primary (parens _ refl d)
  wrap (some comma) plus t b d =
      from_conjunction (from_primary (parens _ refl (from_conjunction d)))
  wrap (some comma) comma t b d = d

  -- A text at this level that denotes the value.
  abbrev Prints : Option Op → Result Exception Text → Bool → Type 0
  Prints c r b = (t : Text) × (r ≡ ok t) × Denotes is_defined (level_of c) t b

  leaf-Prints :
      (c : Option Op) (n : Text)
      → is_leaf l n ≡ true
      → is_identifier (bare n) ≡ true
      → Prints c (condition.leaf n) (is_protected is_defined n)
  unfolding leaf_markup_c_protect
  leaf-Prints c n good c_name = elim (Bool-cases (starts_with n (text "!"))) [
    | inl no_ ↦ (
      text "!defined(" ++ (without_first n ++ text ")"),
      rw (good, leaf_markup_c_protect, no_) refl,
      lift_conjunction c (negated (without_first n) _ _ (rw no_ at c_name) refl (rw no_ refl)),
    )
    | inr yes_ ↦ (
      text "defined(" ++ (n ++ text ")"),
      rw (good, leaf_markup_c_protect, yes_) refl,
      lift_conjunction c (rw yes_ (name n _ (rw yes_ at c_name) refl)),
    )
  ]

  mutual
    meaning-Prints :
        (e : Expr) (c : Option Op)
        → IsNamed l e
        → Prints c (meaning condition c e) (value (is_protected is_defined) e)
    meaning-Prints (single a) c named = meaning_atom-Prints a c named
    meaning-Prints (then_op e op a) c named =
        let (t, right, d) = meaning_atom-Prints a (some op) named.1 in
        let (s, left, d') = meaning-Prints e (some op) named.0 in
        (
          wrapped c op (plain op s t),
          rw (right, left) refl,
          wrap c op (plain op s t) _ (join is_defined op d' d),
        )

    meaning_atom-Prints :
        (a : Atom) (c : Option Op)
        → IsNamedAtom l a
        → Prints c (meaning_atom condition c a) (value_atom (is_protected is_defined) a)
    meaning_atom-Prints (ident ops n) c named = leaf-Prints c n named.0 named.1
    meaning_atom-Prints (group ops e) c named = meaning-Prints e c named
