-- ===== src/Vkex/Registry/Match/Strip.antt =====
-- tools/vkex/reg.py: `stripNonmatchingAPIs`, which takes elements out of the tree.
use teide.Base.{
  ◌≡◌, refl, ap, Bool, true, false, ◌&&◌, List, [], ◌∷◌, ◌++◌, some, map, all, keep, arith,
  Bool-cases, inl, inr, if◌then◌else◌,
}
use teide.Base.Text.{Text, text}
use teide.Vkex.Registry.Match.{api_name_match}
use teide.Vkex.Xml.{
  Element, Elements, element, nil, cons, get, tag_of, attrib_of, text_of, tail_of, to_list,
  children_of, below, all_below,
}

abbrev pub is_for : Text → Element → Bool
is_for api e = api_name_match (some api) (get e (text "api"))

-- The tree after the loop, which has visited each element that is for the API, and has removed the
-- others if it is asked to.
unfoldable mutual
  pub strip_nonmatching_apis : Text → Bool → Element → Element
  strip_nonmatching_apis api actually_delete (element tag attrib body children tail) =
      element tag attrib body (strip_children api actually_delete children) tail

  pub strip_children : Text → Bool → Elements → Elements
  strip_children api actually_delete nil = nil
  strip_children api actually_delete (cons e es) =
      let rest = strip_children api actually_delete es in
      if is_for api e
      then cons (strip_nonmatching_apis api actually_delete e) rest
      else if actually_delete
      then rest
      else cons e rest

all-append :
    {A : Type 0} (p : A → Bool) (xs ys : List A) → all p (xs ++ ys) ≡ (all p xs && all p ys)
all-append p [] ys = refl
all-append p (x ∷ xs) ys = ground (arith, all-append p xs ys)

is_for-strip :
    (api : Text) (e : Element) → is_for api (strip_nonmatching_apis api true e) ≡ is_for api e
unfolding strip_nonmatching_apis
is_for-strip api (element tag attrib body children tail) = refl

below-strip_children :
    (api : Text) (es : Elements) → all (is_for api) (all_below (strip_children api true es)) ≡ true
unfolding strip_children
below-strip_children api nil = refl
below-strip_children api (cons (element tag attrib body children tail) es) =
    let e = element tag attrib body children tail in
    elim (Bool-cases (is_for api e)) [
      | inl kept ↦
          let here = is_for-strip api e in
          let inner = below-strip_children api children in
          let rest = below-strip_children api es in
          let parts =
            all-append (is_for api) (all_below (strip_children api true children))
              (all_below (strip_children api true es)) in
          rw (strip_children, kept, parts) (ground arith)
      | inr dropped ↦ rw (strip_children, dropped) (below-strip_children api es)
    ]

below-strip :
    (api : Text) (e : Element) → all (is_for api) (below (strip_nonmatching_apis api true e)) ≡ true
unfolding strip_nonmatching_apis
below-strip api (element tag attrib body children tail) = below-strip_children api children

strip_children_kept :
    (api : Text) (es : Elements)
    → all (is_for api) (all_below es) ≡ true
    → strip_children api true es ≡ es
unfolding strip_children
strip_children_kept api nil h = refl
strip_children_kept api (cons (element tag attrib body children tail) es) h =
    let e = element tag attrib body children tail in
    let parts = all-append (is_for api) (all_below children) (all_below es) in
    let here : is_for api e ≡ true = ground arith in
    let inner = strip_children_kept api children (ground arith) in
    let rest = strip_children_kept api es (ground arith) in
    rw (strip_children, here, inner, rest) refl

strip_kept :
    (api : Text) (e : Element)
    → all (is_for api) (below e) ≡ true
    → strip_nonmatching_apis api true e ≡ e
unfolding strip_nonmatching_apis
strip_kept api (element tag attrib body children tail) h =
    ap (λ c. element tag attrib body c tail) (strip_children_kept api children h)

children-strip :
    (api : Text) (es : Elements)
    → to_list (strip_children api true es)
      ≡ map (strip_nonmatching_apis api true) (keep (is_for api) (to_list es))
unfolding strip_children
children-strip api nil = refl
children-strip api (cons e es) = elim (Bool-cases (is_for api e)) [
  | inl kept ↦
      rw (strip_children, kept)
        (ap (λ l. strip_nonmatching_apis api true e ∷ l) (children-strip api es))
  | inr dropped ↦ rw (strip_children, dropped) (children-strip api es)
]

mutual
  unfolding strip_nonmatching_apis strip_children

  strip-false : (api : Text) (e : Element) → strip_nonmatching_apis api false e ≡ e
  strip-false api (element tag attrib body children tail) =
      ap (λ c. element tag attrib body c tail) (strip_children-false api children)

  strip_children-false : (api : Text) (es : Elements) → strip_children api false es ≡ es
  strip_children-false api nil = refl
  strip_children-false api (cons e es) = elim (Bool-cases (is_for api e)) [
    | inl kept ↦
        rw (strip_children, kept) (rw (strip-false api e, strip_children-false api es) refl)
    | inr other ↦ rw (strip_children, other) (ap (λ l. cons e l) (strip_children-false api es))
  ]

strip_keeps :
    (api : Text) (e : Element)
    → (children_of (strip_nonmatching_apis api true e)
        ≡ map (strip_nonmatching_apis api true) (keep (is_for api) (children_of e)))
      × (tag_of (strip_nonmatching_apis api true e) ≡ tag_of e)
      × (attrib_of (strip_nonmatching_apis api true e) ≡ attrib_of e)
      × (text_of (strip_nonmatching_apis api true e) ≡ text_of e)
      × (tail_of (strip_nonmatching_apis api true e) ≡ tail_of e)
unfolding strip_nonmatching_apis
strip_keeps api (element tag attrib body children tail) =
    (children-strip api children, refl, refl, refl, refl)

-- If elements are to be deleted, the children that are left are those that are for the API, in their
-- order and stripped in the same way, and the element itself keeps its tag, attributes and text. So
-- all elements that are left below it are for the API, and a second call changes nothing. If nothing
-- is to be deleted, the tree is left unchanged.
pub strip_nonmatching_apis_lem :
    (api : Text) (e : Element)
    → (children_of (strip_nonmatching_apis api true e)
        ≡ map (strip_nonmatching_apis api true) (keep (is_for api) (children_of e)))
      × (tag_of (strip_nonmatching_apis api true e) ≡ tag_of e)
      × (attrib_of (strip_nonmatching_apis api true e) ≡ attrib_of e)
      × (text_of (strip_nonmatching_apis api true e) ≡ text_of e)
      × (tail_of (strip_nonmatching_apis api true e) ≡ tail_of e)
      × (all (is_for api) (below (strip_nonmatching_apis api true e)) ≡ true)
      × (strip_nonmatching_apis api true (strip_nonmatching_apis api true e)
          ≡ strip_nonmatching_apis api true e)
      × (strip_nonmatching_apis api false e ≡ e)
strip_nonmatching_apis_lem api e =
    let (children, tag, attrib, body, tail) = strip_keeps api e in
    (
      children,
      tag,
      attrib,
      body,
      tail,
      below-strip api e,
      strip_kept api (strip_nonmatching_apis api true e) (below-strip api e),
      strip-false api e,
    )
