-- ===== src/Vkex/Target/Selected.antt =====
-- tools/vkex/genvkex.py: the features and extensions that the options select.
use teide.Base.{
  ◌≡◌, refl, ap, Bool, true, false, not, ◌||◌, List, [], ◌∷◌, Option, some, map, all, All,
  Bool-cases, inl, inr,
}
use teide.Base.Text.{Text, text, text_eq}
use teide.Vkex.Target.{
  is_special, re_escape, alternatives, make_re_string, Arguments, split_args, target_of,
}
use teide.Vkex.Target.Regex.{is_one_of, matches, make_re_string-matches}

abbrev pub is_empty : List Text → Bool
is_empty [] = true
is_empty (s ∷ strings) = false

-- A word of characters that stand for themselves in a regular expression.
abbrev pub is_plain : Text → Bool
is_plain w = all (λ c. not (is_special c)) w

abbrev pub ArePlain : List Text → Type 0
ArePlain words = All (λ w. is_plain w ≡ true) words

-- A pattern that matches what is one of these texts, and everything if there are none.
abbrev pub Selects : Option Text → List Text → Type 0
Selects pattern names =
    (p : Text) × (pattern ≡ some p)
    × ((name : Text) → matches p name ≡ some (is_empty names || is_one_of names name))

make_re_string-Selects :
    (names : List Text) → Selects (make_re_string names (some (text ".*")) false) names
unfolding make_re_string matches text_eq
make_re_string-Selects [] = (text ".*", refl, λ name. refl)
make_re_string-Selects (s ∷ names) = make_re_string-matches s names (some (text ".*"))

re_escape-plain : (w : Text) → is_plain w ≡ true → re_escape w ≡ w
unfolding re_escape
re_escape-plain [] h = refl
re_escape-plain (c ∷ w) h = elim (Bool-cases (is_special c)) [
  | inl special ↦ cc (rw special at h)
  | inr plain ↦ rw (re_escape, plain, re_escape-plain w (rw plain at h)) refl
]

map-re_escape : (words : List Text) → ArePlain words → map re_escape words ≡ words
map-re_escape [] h = refl
map-re_escape (w ∷ words) h = rw (re_escape-plain w h.0, map-re_escape words h.1) refl

-- Plain words are the same alternatives whether they are meant literally or as regular expressions.
as_regex :
    (words : List Text)
    → ArePlain words
    → make_re_string words (some (text ".*")) false ≡ make_re_string words (some (text ".*")) true
unfolding make_re_string
as_regex [] h = refl
as_regex (w ∷ words) h = ap alternatives (map-re_escape (w ∷ words) h)

-- If no word of the `-feature` arguments has a character that is special in a regular expression, the
-- versions that are generated, and among them those that are emitted, are these words, or all if there
-- are none, and the pattern is the one that the words give as regular expressions. The extensions
-- that are emitted are the `-emitExtensions` arguments, taken literally, or all if there are none. A
-- pattern also matches its texts with a line break behind.
pub target_of-Selects :
    (xml_api_name : Text) (args : Arguments)
    → ArePlain (split_args args.feature)
    → Selects (target_of xml_api_name args).versions (split_args args.feature)
      × Selects (target_of xml_api_name args).emitversions (split_args args.feature)
      × Selects (target_of xml_api_name args).emit_extensions args.emit_extensions
      × ((target_of xml_api_name args).versions
          ≡ make_re_string (split_args args.feature) (some (text ".*")) true)
unfolding target_of
target_of-Selects xml_api_name args plain = (
  make_re_string-Selects (split_args args.feature),
  make_re_string-Selects (split_args args.feature),
  make_re_string-Selects args.emit_extensions,
  as_regex (split_args args.feature) plain,
)
