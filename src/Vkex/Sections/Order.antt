-- ===== src/Vkex/Sections/Order.antt =====
-- tools/vkex/vkexgenerator.py: what the sections hold when a feature ends.
use teide.Base.{
  ◌≡◌, refl, sym, ◌∙◌, ap, Bool, true, false, not, List, [], ◌∷◌, ◌++◌, some, map, All, keep, ◌||◌,
  arith, append-nil, append_assoc, Bool-cases, inl, inr, if◌then◌else◌,
}
use teide.Base.Result.{Result, ok, ◌>>=◌, step_ok, ok_injective}
use teide.Base.Text.{Text, text_eq, text_eq_iff, contains}
use teide.Vkex.Exceptions.{Exception}
use teide.Vkex.Sections.{
  all_sections, Sections, Feature, begin_feature, append_to, append_section, section_of,
}

-- The calls of `appendSection` in one feature: sections with texts.
abbrev pub append_all : Feature → List (Text × Text) → Result Exception Feature
append_all f [] = ok f
append_all f ((section, body) ∷ more) =
    append_section f (some section) body >>= λ f'. append_all f' more

-- The texts that were appended to a section.
abbrev pub appended : Text → List (Text × Text) → List Text
appended name appends = map (λ a. a.1) (keep (λ a. text_eq name a.0) appends)

section_of-append_to :
    (sections after : Sections) (section body name : Text)
    → append_to sections section body ≡ ok after
    → section_of after name ≡ (
        if text_eq name section
        then section_of sections name ++ (body ∷ [])
        else section_of sections name)
unfolding append_to section_of
section_of-append_to [] after section body name e = cc
section_of-append_to ((other, texts) ∷ rest) after section body name e =
    elim (Bool-cases (text_eq other section)) [
      | inl same ↦
          let shape = ok_injective _ after (rw (append_to, same) at e) in
          rw (← shape) (
            ground
              (arith, text_eq_iff other section, text_eq_iff other name, text_eq_iff name section))
      | inr apart ↦
          let (more, inner, last) =
            step_ok (append_to rest section body) _ after (rw (append_to, apart) at e) in
          let ih = section_of-append_to rest more section body name inner in
          rw (← ok_injective _ after last) (
            ground (
              arith,
              ih,
              text_eq_iff other section,
              text_eq_iff other name,
              text_eq_iff name section,
            ))
    ]

append_all-sections :
    (f after : Feature) (appends : List (Text × Text)) (name : Text)
    → append_all f appends ≡ ok after
    → section_of after.sections name ≡ section_of f.sections name ++ appended name appends
unfolding append_section
append_all-sections f after [] name e =
    ap (λ g. section_of g.sections name) (sym (ok_injective f after e))
    ∙ sym (append-nil (section_of f.sections name))
append_all-sections f after ((section, body) ∷ more) name e =
    let (f', first, e') = step_ok (append_section f (some section) body) _ after e in
    let (sections, inner, last) = step_ok (append_to f.sections section body) _ f' first in
    let later = append_all-sections f' after more name e' in
    let now = section_of-append_to f.sections sections section body name inner in
    let same = ap (λ g. section_of g.sections name) (sym (ok_injective _ f' last)) in
    later
    ∙ ap (λ l. l ++ appended name more) (same ∙ now)
    ∙ (elim (Bool-cases (text_eq name section)) [
      | inl here ↦
          rw here (append_assoc (section_of f.sections name) (body ∷ []) (appended name more))
      | inr there ↦ rw there refl
    ])

section_of-empty :
    (names : List Text) (name : Text) → section_of (map (λ s. (s, [])) names) name ≡ []
unfolding section_of
section_of-empty [] name = refl
section_of-empty (n ∷ names) name = ground (arith, section_of-empty names name)

abbrev names : Sections → List Text
names = map (λ s. s.0)

append_to_total :
    (sections : Sections) (section body : Text)
    → contains (names sections) section ≡ true
    → (after : Sections) × (append_to sections section body ≡ ok after)
      × (names after ≡ names sections)
unfolding append_to
append_to_total [] section body there = cc
append_to_total ((name, texts) ∷ rest) section body there =
    elim (Bool-cases (text_eq name section)) [
      | inl same ↦ ((name, texts ++ (body ∷ [])) ∷ rest, rw (append_to, same) refl, refl)
      | inr apart ↦
          let (after, e, kept) =
            append_to_total rest section body
              (ground (arith, text_eq_iff name section, text_eq_iff section name)) in
          ((name, texts) ∷ after, rw (append_to, apart, e) refl, ap (λ l. name ∷ l) kept)
    ]

abbrev pub is_empty : List (Text × Text) → Bool
is_empty [] = true
is_empty (a ∷ appends) = false

append_all_total :
    (f : Feature) (appends : List (Text × Text))
    → All (λ a. contains (names f.sections) a.0 ≡ true) appends
    → (after : Feature) × (append_all f appends ≡ ok after)
      × (after.feature_not_empty ≡ (f.feature_not_empty || not (is_empty appends)))
unfolding append_section
append_all_total f [] known = (f, refl, ground arith)
append_all_total f ((section, body) ∷ more) known =
    let (sections, e, kept) = append_to_total f.sections section body known.0 in
    let f' : Feature = record { sections = sections; feature_not_empty = true } in
    let (after, e', written) = append_all_total f' more (rw kept known.1) in
    (after, rw (append_section, e) e', written ∙ ground arith)

-- If every text is appended to one of the sections, no call fails, and each section then holds the
-- texts appended to it, in the order of the calls; the feature counts as empty only without a call.
pub append_all_lem :
    (appends : List (Text × Text))
    → All (λ a. contains all_sections a.0 ≡ true) appends
    → (after : Feature) × (append_all begin_feature appends ≡ ok after)
      × (after.feature_not_empty ≡ not (is_empty appends))
      × ((name : Text) → section_of after.sections name ≡ appended name appends)
unfolding begin_feature
append_all_lem appends known =
    let (after, e, written) = append_all_total begin_feature appends known in
    (
      after,
      e,
      written,
      λ name.
          append_all-sections begin_feature after appends name e
          ∙ ap (λ l. l ++ appended name appends) (section_of-empty all_sections name),
    )
