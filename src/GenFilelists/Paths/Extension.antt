-- ===== src/GenFilelists/Paths/Extension.antt =====
-- tools/gen_filelists.py: which names `is_source_file` accepts.
use teide.Base.{
  ◌≡◌, refl, sym, ◌∙◌, ap, ◌↔◌, ℕ, Bool, true, false, not, ◌&&◌, ◌||◌, [], ◌∷◌, ◌++◌, ◌==◌,
  append-nil, append_assoc, arith, Bool-cases, inl, inr, if◌then◌else◌,
}
use teide.Base.Text.{Text, text, text_eq, text_eq_iff, contains}
use teide.GenFilelists.Paths.{
  basename_from, basename, strip_dots, extend, extension_from, extension, source_extensions,
  is_source_file,
}

-- `c not in s`
abbrev lacks : ℕ → Text → Bool
lacks c [] = true
lacks c (d ∷ s) = not (d == c) && lacks c s

-- Some character is not a dot.
abbrev pub has_other : Text → Bool
has_other [] = false
has_other (c ∷ s) = not (c == b'.') || has_other s

-- Where there is no slash all is copied.
basename_from-tail : (name e : Text) → lacks b'/' e ≡ true → basename_from name e ≡ name ++ e
unfolding basename_from
basename_from-tail name [] h = sym (append-nil name)
basename_from-tail name (c ∷ e) h = elim (Bool-cases (c == b'/')) [
  | inl slash ↦ cc (rw slash at h)
  | inr other ↦
      rw other
        (basename_from-tail (name ++ (c ∷ [])) e (rw other at h) ∙ append_assoc name (c ∷ []) e)
]

basename_from-append :
    (name s e : Text)
    → lacks b'/' e ≡ true
    → basename_from name (s ++ e) ≡ basename_from name s ++ e
unfolding basename_from
basename_from-append name [] e h = basename_from-tail name e h
basename_from-append name (c ∷ s) e h =
    basename_from-append (if c == b'/' then [] else name ++ (c ∷ [])) s e h

strip_dots-append : (s e : Text) → has_other s ≡ true → strip_dots (s ++ e) ≡ strip_dots s ++ e
unfolding strip_dots
strip_dots-append [] e h = cc
strip_dots-append (c ∷ s) e h = ground (arith, strip_dots-append s e)

-- Behind the last dot the rest is only copied.
extension_from-tail :
    (d : ℕ) (found e : Text) → lacks b'.' e ≡ true → extension_from (d ∷ found) e ≡ d ∷ found ++ e
unfolding extension_from
extension_from-tail d found [] h = ap (λ l. d ∷ l) (sym (append-nil found))
extension_from-tail d found (c ∷ e) h = elim (Bool-cases (c == b'.')) [
  | inl dot ↦ cc (rw dot at h)
  | inr other ↦ rw other (
      extension_from-tail d (found ++ (c ∷ [])) e (rw other at h)
      ∙ ap (λ l. d ∷ l) (append_assoc found (c ∷ []) e))
]

extension_from-append :
    (found s e : Text) → lacks b'.' e ≡ true → extension_from found (s ++ (b'.' ∷ e)) ≡ b'.' ∷ e
unfolding extension_from
extension_from-append found [] e h = extension_from-tail b'.' [] e h
extension_from-append found (c ∷ s) e h =
    extension_from-append (if c == b'.' then c ∷ [] else extend found c) s e h

-- What is returned is the end of what was read.
extension_from-suffix :
    (before found s : Text)
    → (front : Text) × (before ++ (found ++ s) ≡ front ++ extension_from found s)
unfolding extension_from
extension_from-suffix before found [] = (before, rw append-nil)
extension_from-suffix before [] (c ∷ s) = elim (Bool-cases (c == b'.')) [
  | inl dot ↦ let (front, e) = extension_from-suffix before (c ∷ []) s in (front, rw dot e)
  | inr other ↦
      let (front, e) = extension_from-suffix (before ++ (c ∷ [])) [] s in
      (front, rw other (sym (append_assoc before (c ∷ []) s) ∙ e))
]
extension_from-suffix before (d ∷ found) (c ∷ s) = elim (Bool-cases (c == b'.')) [
  | inl dot ↦
      let (front, e) = extension_from-suffix (before ++ (d ∷ found)) (c ∷ []) s in
      (front, rw dot (sym (append_assoc before (d ∷ found) (c ∷ s)) ∙ e))
  | inr other ↦
      let (front, e) = extension_from-suffix before (d ∷ found ++ (c ∷ [])) s in
      (front, rw other (ap (λ l. before ++ (d ∷ l)) (sym (append_assoc found (c ∷ []) s)) ∙ e))
]

basename_from-suffix :
    (before name s : Text)
    → (front : Text) × (before ++ (name ++ s) ≡ front ++ basename_from name s)
unfolding basename_from
basename_from-suffix before name [] = (before, rw append-nil)
basename_from-suffix before name (c ∷ s) = elim (Bool-cases (c == b'/')) [
  | inl slash ↦
      let (front, e) = basename_from-suffix (before ++ (name ++ (c ∷ []))) [] s in
      let bracket =
        append_assoc before (name ++ (c ∷ [])) s
        ∙ ap (λ l. before ++ l) (append_assoc name (c ∷ []) s) in
      (front, rw slash (sym bracket ∙ e))
  | inr other ↦
      let (front, e) = basename_from-suffix before (name ++ (c ∷ [])) s in
      (front, rw other (rw (append_assoc name (c ∷ []) s) at e))
]

strip_dots-suffix : (s : Text) → (dots : Text) × (s ≡ dots ++ strip_dots s)
unfolding strip_dots
strip_dots-suffix [] = ([], refl)
strip_dots-suffix (c ∷ s) = elim (Bool-cases (c == b'.')) [
  | inl dot ↦ let (dots, e) = strip_dots-suffix s in (c ∷ dots, rw dot (ap (λ l. c ∷ l) e))
  | inr other ↦ ([], rw other)
]

strip_dots-dots : (s e : Text) → has_other s ≡ false → strip_dots (s ++ e) ≡ strip_dots e
unfolding strip_dots
strip_dots-dots [] e h = refl
strip_dots-dots (c ∷ s) e h = ground (arith, strip_dots-dots s e)

no_extension : (s : Text) → lacks b'.' s ≡ true → extension_from [] s ≡ []
unfolding extension_from
no_extension [] h = refl
no_extension (c ∷ s) h = ground (arith, no_extension s)

strip_dots-lacks : (s : Text) → lacks b'.' s ≡ true → strip_dots s ≡ s
unfolding strip_dots
strip_dots-lacks [] h = refl
strip_dots-lacks (c ∷ s) h = ground arith

source_extensions_cases :
    (e : Text)
    → contains source_extensions e ≡ true
    → (r : Text) × (e ≡ b'.' ∷ r) × (lacks b'.' r ≡ true) × (lacks b'/' r ≡ true)
source_extensions_cases e h = elim (Bool-cases (text_eq e (text ".h"))) [
  | inl p ↦ (text "h", (text_eq_iff e _).0 p, refl, refl)
  | inr p ↦ elim (Bool-cases (text_eq e (text ".hpp"))) [
    | inl q ↦ (text "hpp", (text_eq_iff e _).0 q, refl, refl)
    | inr q ↦ elim (Bool-cases (text_eq e (text ".cpp"))) [
      | inl r ↦ (text "cpp", (text_eq_iff e _).0 r, refl, refl)
      | inr r ↦ elim (Bool-cases (text_eq e (text ".natvis"))) [
        | inl t ↦ (text "natvis", (text_eq_iff e _).0 t, refl, refl)
        | inr t ↦ cc (rw (p, q, r, t) at h)
      ]
    ]
  ]
]

extension-append :
    (stem r : Text)
    → lacks b'.' r ≡ true
    → lacks b'/' r ≡ true
    → has_other (basename stem) ≡ true
    → extension (stem ++ (b'.' ∷ r)) ≡ b'.' ∷ r
unfolding extension
extension-append stem r no_dot no_slash other =
    rw (basename_from-append [] stem (b'.' ∷ r) no_slash) (
      rw (strip_dots-append (basename_from [] stem) (b'.' ∷ r) other)
        (extension_from-append [] (strip_dots (basename_from [] stem)) r no_dot))

extension_of_dots :
    (stem r : Text)
    → lacks b'.' r ≡ true
    → lacks b'/' r ≡ true
    → has_other (basename stem) ≡ false
    → extension (stem ++ (b'.' ∷ r)) ≡ []
unfolding extension
extension_of_dots stem r no_dot no_slash dots =
    rw (basename_from-append [] stem (b'.' ∷ r) no_slash) (
      rw (strip_dots-dots (basename_from [] stem) (b'.' ∷ r) dots)
        (rw (strip_dots-lacks r no_dot) (no_extension r no_dot)))

extension-suffix : (f : Text) → (front : Text) × (f ≡ front ++ extension f)
unfolding extension
extension-suffix f =
    let (folder, e₁) = basename_from-suffix [] [] f in
    let (dots, e₂) = strip_dots-suffix (basename_from [] f) in
    let (front, e₃) = extension_from-suffix [] [] (strip_dots (basename_from [] f)) in
    (
      folder ++ (dots ++ front),
      e₁
          ∙ ap (λ l. folder ++ l) (e₂ ∙ ap (λ l. dots ++ l) e₃ ∙ sym (append_assoc dots front _))
          ∙ sym (append_assoc folder (dots ++ front) _),
    )

-- A name is that of a source file exactly when it ends with one of the four extensions, and what
-- stands before that in its last component is more than dots.
pub is_source_file_iff :
    (filename : Text)
    → (is_source_file filename ≡ true) ↔ (
        (stem : Text) × (e : Text) × (filename ≡ stem ++ e)
        × (contains source_extensions e ≡ true)
        × (has_other (basename stem) ≡ true))
unfolding is_source_file
is_source_file_iff filename = (
  λ h.
      let (stem, split) = extension-suffix filename in
      let (r, e, no_dot, no_slash) = source_extensions_cases (extension filename) h in
      (
        stem,
        extension filename,
        split,
        h,
        elim (Bool-cases (has_other (basename stem))) [
          | inl other ↦ other
          | inr dots ↦
              let none_found = extension_of_dots stem r no_dot no_slash dots in
              cc (ap extension (split ∙ ap (λ l. stem ++ l) e))
        ],
      ),
  λ (stem, e, split, h, other).
      let (r, shape, no_dot, no_slash) = source_extensions_cases e h in
      let found = extension-append stem r no_dot no_slash other in
      let same : extension filename ≡ e =
        ap extension (split ∙ ap (λ l. stem ++ l) shape) ∙ found ∙ sym shape in
      rw same h,
)
