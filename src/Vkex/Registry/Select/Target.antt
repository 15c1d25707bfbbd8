-- ===== src/Vkex/Registry/Select/Target.antt =====
-- tools/vkex/reg.py and genvkex.py: what is selected with the options that the script makes.
use teide.Base.{
  ◌≡◌, refl, ◌∙◌, ap, leb, Bool, true, false, ◌&&◌, ◌||◌, List, [], ◌∷◌, Option, none, some, keep,
  All, Bool-cases, inl, inr,
}
use teide.Base.Text.{Text, text, text_eq, contains, starts_with}
use teide.Vkex.Registry.Match.{api_name_match}
use teide.Vkex.Registry.Select.{
  FeatureInfo, SelectOptions, insert_by_number, sort_by_number, is_version, is_included, is_removed,
  select,
}
use teide.Vkex.Registry.Select.Laws.{select_lem}
use teide.Vkex.Registry.Select.Names.{names, keys}
use teide.Vkex.Target.{Arguments, TargetOptions, make_re_string, split_args, target_of}
use teide.Vkex.Target.Regex.{inside, is_one_of, matches}
use teide.Vkex.Target.Selected.{is_empty, ArePlain, target_of-Selects}
use teide.Vkex.Xml.{get}

-- `match` of a pattern, which the options of the script always have.
abbrev pub finds : (Text → Text → Bool) → Option Text → Text → Bool
finds re_match none name = false
finds re_match (some pattern) name = re_match pattern name

abbrev pub options_of : (Text → Text → Bool) → Option Text → TargetOptions → SelectOptions
options_of re_match default_extensions t = record {
  apiname = some t.apiname;
  default_extensions = default_extensions;
  versions = finds re_match t.versions;
  emit_versions = finds re_match t.emitversions;
  add_extensions = finds re_match t.add_extensions;
  remove_extensions = finds re_match t.remove_extensions;
  emit_extensions = finds re_match t.emit_extensions;
}

-- An extension that the API supports, and a version of the API that is among the words, if there are any.
abbrev pub is_supported : Text → FeatureInfo → Bool
is_supported apiname ei = api_name_match (some apiname) (get ei.elem (text "supported"))

abbrev pub is_wanted : Text → List Text → FeatureInfo → Bool
is_wanted apiname words fi =
    api_name_match (some apiname) (get fi.elem (text "api"))
    && (is_empty words || is_one_of words fi.name)

abbrev pub IsNamed : FeatureInfo → Type 0
IsNamed x = is_one_of ([] ∷ []) x.name ≡ false

keep-eq :
    {A : Type 0} (p q : A → Bool) (xs : List A) → All (λ x. p x ≡ q x) xs → keep p xs ≡ keep q xs
keep-eq p q [] h = refl
keep-eq p q (x ∷ xs) h = rw (h.0, keep-eq p q xs h.1) refl

keep-none : {A : Type 0} (xs : List A) → keep (λ x. false) xs ≡ []
keep-none [] = refl
keep-none (x ∷ xs) = keep-none xs

All-map :
    {A : Type 0} (P Q : A → Type 0) → ((x : A) → P x → Q x) → (xs : List A) → All P xs → All Q xs
All-map P Q f [] h = tt
All-map P Q f (x ∷ xs) h = (f x h.0, All-map P Q f xs h.1)

All-all : {A : Type 0} (P : A → Type 0) → ((x : A) → P x) → (xs : List A) → All P xs
All-all P f [] = tt
All-all P f (x ∷ xs) = (f x, All-all P f xs)

All-insert_by_number :
    (P : FeatureInfo → Type 0) (x : FeatureInfo) (xs : List FeatureInfo)
    → P x
    → All P xs
    → All P (insert_by_number x xs)
unfolding insert_by_number
All-insert_by_number P x [] h k = (h, tt)
All-insert_by_number P x (y ∷ ys) h k = elim (Bool-cases (leb x.number y.number)) [
  | inl before ↦ rw (insert_by_number, before) (h, k)
  | inr behind ↦ rw (insert_by_number, behind) (k.0, All-insert_by_number P x ys h k.1)
]

All-sort_by_number :
    (P : FeatureInfo → Type 0) (xs : List FeatureInfo) → All P xs → All P (sort_by_number xs)
unfolding sort_by_number
All-sort_by_number P [] h = tt
All-sort_by_number P (x ∷ xs) h =
    All-insert_by_number P x (sort_by_number xs) h.0 (All-sort_by_number P xs h.1)

module _ (re_match : Text → Text → Bool)
    (agrees : (p n : Text) (b : Bool) → matches p n ≡ some b → re_match p n ≡ b)
    (default_extensions : Option Text) (xml_api_name : Text) (args : Arguments)
    (no_removal : args.remove_extensions ≡ []) (plain : ArePlain (split_args args.feature)) where
  abbrev target : TargetOptions
  target = target_of xml_api_name args

  abbrev o : SelectOptions
  o = options_of re_match default_extensions target

  removes_none : (x : FeatureInfo) → IsNamed x → o.remove_extensions x.name ≡ false
  unfolding target_of make_re_string matches inside starts_with text_eq
  removes_none x named =
      rw no_removal (agrees (text "^()$") x.name (is_one_of ([] ∷ []) x.name) refl ∙ named)

  adds_all : (n : Text) → o.add_extensions n ≡ true
  unfolding target_of matches text_eq
  adds_all n = agrees (text ".*") n true refl

  included : (x : FeatureInfo) → IsNamed x → is_included o x ≡ is_supported target.apiname x
  included x named = rw (removes_none x named, adds_all x.name) refl

  removed : (x : FeatureInfo) → IsNamed x → is_removed o x ≡ false
  removed x named = rw (removes_none x named) refl

  versions :
      (x : FeatureInfo) → is_version o x ≡ is_wanted target.apiname (split_args args.feature) x
  versions x =
      let (p, e, decides) = (target_of-Selects xml_api_name args plain).0 in
      rw e (rw (agrees p x.name _ (decides x.name)) refl)

  -- If no extension is to be removed, none is called by the empty text or a line break, and no word of
  -- the `-feature` arguments has a character that is special in a regular expression, then, whatever the
  -- default, exactly the extensions that the API supports are required, in the order of their numbers,
  -- none counts as removed, and the selected features are these extensions and the versions of the API,
  -- of which those that the arguments name if they name any. It is assumed that `match` finds what
  -- it should for the patterns that the script makes.
  pub select-target_of :
      (apis exts : List FeatureInfo)
      → All IsNamed exts
      → ((select o apis exts).required_extensions
          ≡ names (keep (is_supported target.apiname) (sort_by_number exts)))
        × ((n : Text) → contains (select o apis exts).removed_extension_names n ≡ false)
        × ((n : Text)
            → contains (keys (select o apis exts).gen_features) n ≡ (
                contains (names (keep (is_wanted target.apiname (split_args args.feature)) apis)) n
                || contains (names (keep (is_supported target.apiname) exts)) n))
  select-target_of apis exts named =
      let (features, required, ascending, gone) = select_lem o apis exts in
      let same : (xs : List FeatureInfo)
          → All IsNamed xs
          → keep (is_included o) xs ≡ keep (is_supported target.apiname) xs =
        λ xs h.
          keep-eq (is_included o) (is_supported target.apiname) xs (
            All-map IsNamed (λ x. is_included o x ≡ is_supported target.apiname x) included xs h) in
      let wanted = is_wanted target.apiname (split_args args.feature) in
      let same_versions =
        keep-eq (is_version o) wanted apis
          (All-all (λ x. is_version o x ≡ wanted x) versions apis) in
      let none_gone =
        keep-eq (is_removed o) (λ x. false) exts
          (All-map IsNamed (λ x. is_removed o x ≡ false) removed exts named) in
      (
        required ∙ ap names (same (sort_by_number exts) (All-sort_by_number IsNamed exts named)),
        λ n. gone n ∙ ap (λ l. contains (names l) n) (none_gone ∙ keep-none exts),
        λ n.
            features n
            ∙ ap (λ l. contains (names l) n || contains (names (keep (is_included o) exts)) n)
                same_versions
            ∙ ap (λ l. contains (names (keep wanted apis)) n || contains (names l) n)
                (same exts named),
      )
